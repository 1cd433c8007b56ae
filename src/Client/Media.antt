-- ===== src/Client/Media.antt =====
-- The media calls of clients/js/src/client.ts.
use kiln_cms.Prelude.{
  ℕ, Bool, true, false, Option, none, some, or_else, List, [], ◌∷◌, ◌++◌, map, Text, codes,
  is_empty, show, if◌then◌else◌, Result, err, ok,
}
use kiln_cms.Json.{
  Json, bool, number, str, arr, obj, item_list, field_list, assign, get, get?, string_of, items,
  text_of,
}
use kiln_cms.JsonApi.{Item, Signal, timeout, flatten_document, as_document, entries_of}
use kiln_cms.Errors.{KilnError, foreign, http, new_http_error, other, first, Thrown}
use kiln_cms.Client.{
  KilnClient, Platform, Call, Blob, FormPart, text_part, file_part, Response, json, form, raw,
  ◌>>=◌, ◌>>◌, return, throw, send_body, error_body, is_ok,
}
use kiln_cms.Client.Url.{encode_component}
use kiln_cms.Client.Delivery.{post_method}

-- The focal point as `String` prints its numbers.
pub record MediaMetadata : Type 0 where
  pub alt : Option Text
  pub caption : Option Text
  pub decorative : Option Bool
  pub focal_x : Option Text
  pub focal_y : Option Text
  pub tag_ids : Option (List Text)

-- `if (option !== undefined) params.name = option`
abbrev pub put? {ℓ} :
    {A : Type ℓ} → Text → (A → Json) → Option A → List (Text × Json) → List (Text × Json)
put? name value none params = params
put? name value (some a) params = assign name (value a) params

abbrev pub texts : List Text → Json
texts ids = arr (item_list (map str ids))

unfoldable pub metadata_params : MediaMetadata → List (Text × Json)
metadata_params metadata =
    let p1 = put? (codes "alt") str metadata.alt [] in
    let p2 = put? (codes "caption") str metadata.caption p1 in
    let p3 = put? (codes "decorative") bool metadata.decorative p2 in
    let p4 = put? (codes "focal_x") number metadata.focal_x p3 in
    let p5 = put? (codes "focal_y") number metadata.focal_y p4 in
    put? (codes "tag_ids") texts metadata.tag_ids p5

abbrev pub form_parts : Text → Json → List (Text × FormPart)
form_parts key (arr js) = map (λ j. (key ++ codes "[]", text_part (text_of j))) (items js)
form_parts key j = (key, text_part (text_of j)) ∷ []

unfoldable pub append_metadata : List (Text × Json) → List (Text × FormPart)
append_metadata [] = []
append_metadata ((key, value) ∷ es) = form_parts key value ++ append_metadata es

-- The name of a `File`, where it has one.
unfoldable pub file_name : Blob → Text
file_name file = elim file.file_name [
  | none ↦ codes "upload"
  | some name ↦ if is_empty name then codes "upload" else name
]

unfoldable pub media_path : Text → Text
media_path id = codes "/api/json/media-items/" ++ encode_component id

abbrev pub no_media_item : KilnError
no_media_item =
    foreign (record { name = some (codes "Error"); reason = codes "Kiln returned no media item" })

abbrev pub with_processing : Option Json → Item → Item
with_processing none i = i
with_processing (some processing) i = record i {
  attributes = assign (codes "processing") processing i.attributes;
}

-- `mediaItem`: the one item of an answer, and whether it is still being processed.
unfoldable pub media_item : {S : Type 0} → Json → Call S Item
media_item doc = elim (first (flatten_document (as_document doc)).items) [
  | none ↦ throw no_media_item
  | some i ↦
      return (
        with_processing (get? (codes "processing") (get? (codes "meta") (get (codes "data") doc)))
          i)
]

pub record DirectUpload : Type 0 where
  pub token : Text
  pub upload_url : Text
  pub headers : List (Text × Text)
  pub expires_at : Text
  pub max_bytes : Option Json

abbrev pub text_or_empty : Option Json → Text
text_or_empty o = or_else (string_of o) []

-- The casts of an answer's fields.
unfoldable pub as_direct_upload : Option Json → DirectUpload
as_direct_upload data_ = record {
  token = text_or_empty (get? (codes "token") data_);
  upload_url = text_or_empty (get? (codes "upload_url") data_);
  headers =
      map (λ (e : Text × Json). (e.0, text_of e.1))
        (or_else (entries_of (get? (codes "headers") data_)) []);
  expires_at = text_or_empty (get? (codes "expires_at") data_);
  max_bytes = get? (codes "max_bytes") data_;
}

abbrev pub object : List (Text × Json) → Json
object es = obj (field_list es)

-- `{ ...object, ...more }`
abbrev pub with_fields : List (Text × Json) → List (Text × Json) → List (Text × Json)
with_fields es [] = es
with_fields es ((k, j) ∷ more) = with_fields (assign k j es) more

module _ {S : Type 0} (platform : Platform S) (client : KilnClient) where
  open platform use {fetch, now}

  unfoldable pub upload_media : Blob → MediaMetadata → Option Text → Option Signal → Call S Item
  upload_media file metadata filename signal = do
    doc ←
        send_body platform client post_method (codes "/api/media")
          (form (
            append_metadata (metadata_params metadata)
            ++ (codes "file", file_part file (or_else filename (file_name file))) ∷ []))
          signal true
    media_item doc

  unfoldable pub import_media_from_url :
      Text → MediaMetadata → Option Text → Option Signal → Call S Item
  import_media_from_url url metadata filename signal = do
    doc ←
        send_body platform client post_method (codes "/api/media/import-url")
          (json (
            object (
              put? (codes "filename") str filename
                (with_fields ((codes "url", str url) ∷ []) (metadata_params metadata)))))
          signal true
    media_item doc

  unfoldable pub update_media :
      Text → MediaMetadata → Option (List Text) → Option (List Text) → Option Signal → Call S Item
  update_media id changes add_tag_ids remove_tag_ids signal =
      let attributes =
        put? (codes "remove_tag_ids") texts remove_tag_ids
          (put? (codes "add_tag_ids") texts add_tag_ids (metadata_params changes)) in
      do
        doc ←
            send_body platform client (codes "PATCH") (media_path id)
              (json (
                object (
                  (
                    codes "data",
                    object (
                        (codes "type", str (codes "media_item"))
                        ∷ (codes "id", str id)
                        ∷ (codes "attributes", object attributes)
                        ∷ []),
                  )
                  ∷ [])))
              signal false
        media_item doc

  unfoldable pub begin_direct_upload : Text → ℕ → Option Signal → Call S DirectUpload
  begin_direct_upload filename byte_size signal = do
    body ←
        send_body platform client post_method (codes "/api/media/uploads")
          (json (
            object (
              (codes "filename", str filename)
              ∷ (codes "byte_size", number (show byte_size))
              ∷ [])))
          signal false
    return (as_direct_upload (get (codes "data") body))

  unfoldable pub complete_direct_upload : Text → MediaMetadata → Option Signal → Call S Item
  complete_direct_upload token metadata signal = do
    doc ←
        send_body platform client post_method (codes "/api/media/uploads/complete")
          (json (object (with_fields ((codes "token", str token) ∷ []) (metadata_params metadata))))
          signal true
    media_item doc

  -- The answer of the bucket.
  unfoldable pub on_put : Text → Result Thrown Response → Call S (Unit {0})
  on_put url (err thrown) s = throw (foreign thrown) s
  on_put url (ok response) s =
      if is_ok response.status
      then return tt s
      else throw
          (http (new_http_error other response.status url (error_body platform response) none)) s

  -- The bytes go straight to the bucket, with the headers that the server gave.
  unfoldable pub put_file : DirectUpload → Blob → Signal → Call S (Unit {0})
  put_file upload file signal s =
      let (t, outcome) =
        fetch
          (record {
            method = codes "PUT";
            url = upload.upload_url;
            headers = upload.headers;
            signal = signal;
            body = raw file;
          })
          s in
      on_put upload.upload_url outcome t

  abbrev pub upload_with : Blob → MediaMetadata → Option Text → Signal → Call S Item
  upload_with file metadata filename signal = do
    upload ← begin_direct_upload (or_else filename (file_name file)) file.size (some signal)
    put_file upload file signal
    complete_direct_upload upload.token metadata (some signal)

  -- One signal bounds the three requests.
  unfoldable pub upload_media_direct :
      Blob → MediaMetadata → Option Text → Option Signal → Call S Item
  upload_media_direct file metadata filename signal s =
      upload_with file metadata filename (or_else signal (timeout (now s) client.upload_timeout_ms))
        s
