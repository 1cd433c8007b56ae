-- ===== src/Tests/Client.antt =====
-- Runs of the API client on small servers.
use kiln_cms.Prelude.{
  ℕ, zero, suc, ◌≤◌, ◌<◌, ◌≡◌, ◌⊎◌, inl, inr, refl, Bool, true, false, Option, none, some, List, [],
  ◌∷◌, Text, codes, starts, All, text_eq, Result, ok, Bool-cases, arith, if◌then◌else◌,
}
use kiln_cms.Json.{Json, bool, str, arr, obj, no_items, item, no_fields, field}
use kiln_cms.JsonApi.{
  Item, append_if_present, ListOptions, filter_map, flatten_document, flatten_resource,
  relationships_from, as_document, as_resource,
}
use kiln_cms.Errors.{Thrown}
use kiln_cms.Client.{
  KilnClient, Platform, Request, Response, has_api_key, plain_json, request_of, url_of,
  without_slashes,
}
use kiln_cms.Transform.Version.{utf8}
use kiln_cms.Client.Url.{encode_component, query_string}
use kiln_cms.Client.Sending.{IsAnswered, IsBusy, get_request}
use kiln_cms.Client.Reads.{get_method, chunks, by_ids}
use kiln_cms.Client.Reads.Chunks.{IsChunk, flat, chunks-IsChunk}
use kiln_cms.Client.Reads.Batch.{Records, holds, IsServer as HasRecords, by_ids-records}
use kiln_cms.Client.Writes.{resource_type}
use kiln_cms.Client.Writes.Guarded.{publishing, perform, IsRefused, perform-IsRefused}
use kiln_cms.Client.Sync.{SyncOptions, sync, as_page, page_params, sync_path}
use kiln_cms.Client.Sync.Mirror.{Feed, FitsPage, IsServer, sync-Feed}

abbrev anonymous_client : KilnClient
anonymous_client = record {
  base_url = codes "https://kiln";
  api_key = none;
  timeout_ms = 15000;
  upload_timeout_ms = 300000;
  headers = [];
  image_transform_key = none;
}

drops_slashes : without_slashes (codes "https://kiln//") ≡ codes "https://kiln"
unfolding without_slashes
drops_slashes = refl

names_an_entry : resource_type none (codes "entries") ≡ codes "entry"
unfolding resource_type
names_an_entry = refl

escapes_a_slash : encode_component (codes "a/b é") ≡ codes "a%2Fb%20%C3%A9"
unfolding encode_component utf8
escapes_a_slash = refl

-- A server that answers every request with the same text.
abbrev answer : Request → ℕ → ℕ × Result Thrown Response
answer req s = (suc s, ok (record { status = 200; retry_after = none; text = ok (codes "{}") }))

-- The document that it stands for has one record.
abbrev document : Json
document = obj (
    field (codes "data")
      (arr (
        item
          (obj (
            field (codes "id") (str (codes "a"))
              (field (codes "type") (str (codes "post")) no_fields)))
          no_items))
      no_fields)

abbrev one_record : Platform ℕ
one_record = record {
  fetch = answer;
  sleep = λ ms signal s. (s, ok tt);
  now = λ s. s;
  parse_json = λ text. some document;
  parse_date = λ text. none;
}

abbrev record_a : Item
record_a = record { attributes = []; id = codes "a"; type_ = codes "post"; relationships = [] }

abbrev records : Records
records id = if text_eq (codes "a") id then some record_a else none

abbrev list_options : ListOptions
list_options = record {
  filter = none;
  custom_filter = none;
  sort = none;
  custom_sort = none;
  include = none;
  fields = none;
  limit = none;
  offset = none;
  count = none;
  published = none;
  signal = none;
}

finds_all :
    (chunk : List Text) → All (λ id. (records id ≡ none) ⊎ (holds id (record_a ∷ []) ≡ true)) chunk
finds_all [] = tt
finds_all (id ∷ ids) = (
  elim (Bool-cases (text_eq (codes "a") id)) [
    | inl same ↦ inr (rw same refl)
    | inr other ↦ inl (rw other refl)
  ],
  finds_all ids,
)

serves : HasRecords one_record anonymous_client (codes "posts") list_options records
unfolding flatten_document as_document as_resource flatten_resource relationships_from
serves s chunk fits =
    (suc s, document, (codes "{}", refl, refl, refl), ((refl, tt), finds_all chunk))

by_ids-records_example :
    (t : ℕ) × (by_ids one_record anonymous_client
        (codes "posts")
        (codes "a" ∷ codes "b" ∷ codes "a" ∷ [])
        list_options
        0
      ≡ (t, ok (filter_map records (codes "a" ∷ codes "b" ∷ codes "a" ∷ []))))
by_ids-records_example =
    by_ids-records one_record anonymous_client (codes "posts") list_options records serves
      (codes "a" ∷ codes "b" ∷ codes "a" ∷ []) 0

chunks-IsChunk_example :
    All IsChunk (chunks (codes "a" ∷ codes "b" ∷ []))
    × (flat (chunks (codes "a" ∷ codes "b" ∷ [])) ≡ codes "a" ∷ codes "b" ∷ [])
chunks-IsChunk_example = chunks-IsChunk (codes "a" ∷ codes "b" ∷ [])

anonymous-has_api_key : has_api_key anonymous_client ≡ false
unfolding has_api_key
anonymous-has_api_key = refl

perform-IsRefused_example :
    IsRefused
      (perform one_record anonymous_client (publishing (codes "posts") (codes "1") none none))
perform-IsRefused_example =
    perform-IsRefused one_record anonymous_client anonymous-has_api_key
      (publishing (codes "posts") (codes "1") none none)

-- A feed of two pages; its server is busy for a while at first.
abbrev page : Json → Text → Bool → Json
page j cursor more = obj (
    field (codes "items") (arr (item j no_items))
      (field (codes "cursor") (str cursor) (field (codes "has_more") (bool more) no_fields)))

abbrev first_page : Json
first_page = page (str (codes "x")) (codes "c") true

abbrev last_page : Json
last_page = page (str (codes "y")) (codes "e") false

abbrev page_text : Bool → Text
page_text true = codes "first"
page_text false = codes "last"

abbrev serve_page : Request → ℕ → ℕ × Result Thrown Response
serve_page req (suc n) = (n, ok (record { status = 503; retry_after = none; text = ok [] }))
serve_page req zero = (
  zero,
  ok (record {
    status = 200;
    retry_after = none;
    text = ok (page_text (starts (codes "https://kiln/api/sync?i") req.url));
  }),
)

abbrev paged : Platform ℕ
paged = record {
  fetch = serve_page;
  sleep = λ ms signal s. (s, ok tt);
  now = λ s. s;
  parse_json = λ text. some (if text_eq text (codes "first") then first_page else last_page);
  parse_date = λ text. none;
}

abbrev sync_options : SyncOptions
sync_options = record {
  cursor = none;
  type_ = none;
  surface = none;
  limit = none;
  retries = none;
  retry_delay_ms = none;
  signal = none;
}

abbrev content_after : Option Text → List Json
content_after none = str (codes "x") ∷ str (codes "y") ∷ []
content_after (some cursor) = str (codes "y") ∷ []

abbrev pages_left : Option Text → ℕ
pages_left none = 1
pages_left (some cursor) = 0

abbrev two_pages : Feed
two_pages = record { content = content_after; left = pages_left; end = codes "e" }

abbrev busy_for : ℕ → ℕ
busy_for s = s

abbrev request_for : Option Text → ℕ → Request
request_for cursor s =
    get_request paged anonymous_client get_method sync_path (page_params cursor sync_options) none
      plain_json s

serves_page :
    (s : ℕ) (cursor : Option Text)
    → ((t : ℕ) × IsBusy paged (request_for cursor s) s t × (busy_for t < busy_for s))
      ⊎ ((t : ℕ) × (j : Json) × IsAnswered paged (request_for cursor s) s t j
          × (busy_for t ≤ 3)
          × FitsPage two_pages cursor (as_page j))
unfolding request_of url_of page_params query_string utf8 as_page append_if_present
serves_page (suc n) cursor = inl (n, (none, ok [], refl), omega arith)
serves_page zero none =
    inr (0, first_page, (page_text true, refl, refl, refl), omega arith, inr (refl, refl, refl))
serves_page zero (some cursor) =
    inr
      (0, last_page, (page_text false, refl, refl, refl), omega arith, inl (refl, refl, refl, refl))

feeds : IsServer paged anonymous_client sync_options two_pages busy_for
feeds = record { answers = serves_page; rests = λ s. (s, refl, omega arith) }

sync-Feed_example :
    (t : ℕ) × (sync paged anonymous_client sync_options 2 2 ≡ (
      t,
      ok (some (record { items = str (codes "x") ∷ str (codes "y") ∷ []; cursor = codes "e" })),
    ))
sync-Feed_example =
    sync-Feed paged anonymous_client sync_options two_pages busy_for feeds 2 2 (omega arith)
      (omega arith)
