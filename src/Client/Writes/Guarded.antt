-- ===== src/Client/Writes/Guarded.antt =====
-- Writes of records and media without a key.
use kiln_cms.Prelude.{◌≡◌, refl, Bool, false, Option, List, Text, ap, ℕ, err}
use kiln_cms.Json.{Fields}
use kiln_cms.JsonApi.{Item, Signal}
use kiln_cms.Client.{
  KilnClient, Platform, Call, Body, Blob, has_api_key, write, send_body, require_api_key,
  missing_api_key, ◌>>=◌, ◌>>◌, after, return,
}
use kiln_cms.Client.Media.{
  MediaMetadata, DirectUpload, upload_media, import_media_from_url, update_media,
  begin_direct_upload, complete_direct_upload, upload_media_direct,
}
use kiln_cms.Client.Writes.{
  create, update, transition, submit_for_review, return_to_draft, publish, unpublish, delete,
}

-- The call is refused: nothing happens in the world, and the error is that no key is there.
abbrev pub IsRefused : {S A : Type 0} → Call S A → Type 0
IsRefused {S} {A} call =
    (s : S) → (method : Text) × (path : Text) × (call s ≡ (s, err (missing_api_key method path)))

-- What follows a refused call is not done.
after-IsRefused :
    {S A B : Type 0} (call : Call S A) (next : A → Call S B)
    → IsRefused call
    → IsRefused (call >>= next)
after-IsRefused call next refused s =
    let (method, path, e) = refused s in (method, path, ap (λ r. after r next) e)

-- The calls that ask for a key before they send, with their arguments: those that write a record, move
-- it or delete it, and those that upload media or describe it. `restoreRevision`, `submitForm` and
-- `graphql` are sent without a key, too.
pub data GuardedCall : Type 0 where
  creating : Text → Fields → Option Text → Option Text → Option Signal → GuardedCall
  updating : Text → Text → Fields → Option Text → Option Signal → GuardedCall
  moving : Text → Text → Text → Option Text → Option Signal → GuardedCall
  submitting returning publishing unpublishing :
      Text → Text → Option Text → Option Signal → GuardedCall
  deleting : Text → Text → Option Signal → GuardedCall
  uploading : Blob → MediaMetadata → Option Text → Option Signal → GuardedCall
  importing : Text → MediaMetadata → Option Text → Option Signal → GuardedCall
  editing :
      Text → MediaMetadata → Option (List Text) → Option (List Text) → Option Signal → GuardedCall
  beginning : Text → ℕ → Option Signal → GuardedCall
  completing : Text → MediaMetadata → Option Signal → GuardedCall
  uploading_directly : Blob → MediaMetadata → Option Text → Option Signal → GuardedCall

pub data Answer : Type 0 where
  item_answer : Item → Answer
  upload_answer : DirectUpload → Answer
  no_answer : Answer

module _ {S : Type 0} (platform : Platform S) (client : KilnClient) where
  write-IsRefused :
      (method path : Text) (body : Body) (signal : Option Signal) (headers : List (Text × Text))
      → has_api_key client ≡ false
      → IsRefused (write platform client method path body signal headers)
  unfolding write require_api_key
  write-IsRefused method path body signal headers e s =
      (method, path, rw (e, write, require_api_key) refl)

  send_body-IsRefused :
      (method path : Text) (body : Body) (signal : Option Signal) (upload : Bool)
      → has_api_key client ≡ false
      → IsRefused (send_body platform client method path body signal upload)
  unfolding send_body require_api_key
  send_body-IsRefused method path body signal upload e s =
      (method, path, rw (e, send_body, require_api_key) refl)

  transition-IsRefused :
      (plural id verb : Text) (type_ : Option Text) (signal : Option Signal)
      → has_api_key client ≡ false
      → IsRefused (transition platform client plural id verb type_ signal)
  unfolding transition
  transition-IsRefused plural id verb type_ signal e =
      after-IsRefused _ _ (write-IsRefused _ _ _ _ _ e)

  begin_direct_upload-IsRefused :
      (filename : Text) (size : ℕ) (signal : Option Signal)
      → has_api_key client ≡ false
      → IsRefused (begin_direct_upload platform client filename size signal)
  unfolding begin_direct_upload
  begin_direct_upload-IsRefused filename size signal e =
      after-IsRefused _ _ (send_body-IsRefused _ _ _ _ _ e)

  abbrev with_item : Call S Item → Call S Answer
  with_item call = do i ← call; return (item_answer i)

  abbrev pub perform : GuardedCall → Call S Answer
  perform (creating plural attributes type_ who signal) =
      with_item (create platform client plural attributes type_ who signal)
  perform (updating plural id attributes type_ signal) =
      with_item (update platform client plural id attributes type_ signal)
  perform (moving plural id verb type_ signal) =
      with_item (transition platform client plural id verb type_ signal)
  perform (submitting plural id type_ signal) =
      with_item (submit_for_review platform client plural id type_ signal)
  perform (returning plural id type_ signal) =
      with_item (return_to_draft platform client plural id type_ signal)
  perform (publishing plural id type_ signal) =
      with_item (publish platform client plural id type_ signal)
  perform (unpublishing plural id type_ signal) =
      with_item (unpublish platform client plural id type_ signal)
  perform (deleting plural id signal) = delete platform client plural id signal >> return no_answer
  perform (uploading file metadata name signal) =
      with_item (upload_media platform client file metadata name signal)
  perform (importing url metadata name signal) =
      with_item (import_media_from_url platform client url metadata name signal)
  perform (editing id changes add remove signal) =
      with_item (update_media platform client id changes add remove signal)
  perform (beginning name size signal) = do
    upload ← begin_direct_upload platform client name size signal
    return (upload_answer upload)
  perform (completing token metadata signal) =
      with_item (complete_direct_upload platform client token metadata signal)
  perform (uploading_directly file metadata name signal) =
      with_item (upload_media_direct platform client file metadata name signal)

  upload_media_direct-IsRefused :
      (file : Blob) (metadata : MediaMetadata) (name : Option Text) (signal : Option Signal)
      → has_api_key client ≡ false
      → IsRefused (upload_media_direct platform client file metadata name signal)
  unfolding upload_media_direct
  upload_media_direct-IsRefused file metadata name signal e s =
      after-IsRefused _ _ (begin_direct_upload-IsRefused _ _ _ e) s

  -- Without a key, whichever is called of `create`, `update`, `transition` and its four verbs,
  -- `delete`, and the six calls that upload, import, describe or complete a media item, nothing is
  -- sent: the world is as it was, whatever `fetch` does, and the call throws the error that a key is
  -- missing.
  pub perform-IsRefused :
      has_api_key client ≡ false → (call : GuardedCall) → IsRefused (perform call)
  unfolding create update submit_for_review return_to_draft publish unpublish delete upload_media
      import_media_from_url update_media complete_direct_upload
  perform-IsRefused e (creating _ _ _ _ _) =
      after-IsRefused _ _ (after-IsRefused _ _ (write-IsRefused _ _ _ _ _ e))
  perform-IsRefused e (updating _ _ _ _ _) =
      after-IsRefused _ _ (after-IsRefused _ _ (write-IsRefused _ _ _ _ _ e))
  perform-IsRefused e (moving _ _ _ _ _) = after-IsRefused _ _ (transition-IsRefused _ _ _ _ _ e)
  perform-IsRefused e (submitting _ _ _ _) = after-IsRefused _ _ (transition-IsRefused _ _ _ _ _ e)
  perform-IsRefused e (returning _ _ _ _) = after-IsRefused _ _ (transition-IsRefused _ _ _ _ _ e)
  perform-IsRefused e (publishing _ _ _ _) = after-IsRefused _ _ (transition-IsRefused _ _ _ _ _ e)
  perform-IsRefused e (unpublishing _ _ _ _) =
      after-IsRefused _ _ (transition-IsRefused _ _ _ _ _ e)
  perform-IsRefused e (deleting _ _ _) =
      after-IsRefused _ _ (after-IsRefused _ _ (write-IsRefused _ _ _ _ _ e))
  perform-IsRefused e (uploading _ _ _ _) =
      after-IsRefused _ _ (after-IsRefused _ _ (send_body-IsRefused _ _ _ _ _ e))
  perform-IsRefused e (importing _ _ _ _) =
      after-IsRefused _ _ (after-IsRefused _ _ (send_body-IsRefused _ _ _ _ _ e))
  perform-IsRefused e (editing _ _ _ _ _) =
      after-IsRefused _ _ (after-IsRefused _ _ (send_body-IsRefused _ _ _ _ _ e))
  perform-IsRefused e (beginning _ _ _) =
      after-IsRefused _ _ (begin_direct_upload-IsRefused _ _ _ e)
  perform-IsRefused e (completing _ _ _) =
      after-IsRefused _ _ (after-IsRefused _ _ (send_body-IsRefused _ _ _ _ _ e))
  perform-IsRefused e (uploading_directly _ _ _ _) =
      after-IsRefused _ _ (upload_media_direct-IsRefused _ _ _ _ e)
