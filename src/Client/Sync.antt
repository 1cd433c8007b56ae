-- ===== src/Client/Sync.antt =====
-- The sync calls of clients/js/src/client.ts: `syncPage`, its retries, and the loop of `sync`. The loop
-- has fuel: a number of pages, after which the model gives up without an answer.
pub mod Mirror
use kiln_cms.Prelude.{
  ℕ, zero, suc, Bool, true, false, Option, none, some, or_else, List, [], ◌∷◌, ◌++◌, Text, codes,
  if◌then◌else◌, Result, err, ok,
}
use kiln_cms.Json.{Json, arr, items, get, string_of, is_truthy}
use kiln_cms.JsonApi.{Params, Signal, append, append_if_present, shown}
use kiln_cms.Errors.{KilnError, foreign, Thrown}
use kiln_cms.Client.{
  KilnClient, Platform, Call, ◌>>=◌, ◌>>◌, return, throw, catch, after, caught, request, plain_json,
}
use kiln_cms.Client.Reads.{get_method}
use kiln_cms.Client.Delivery.{is_status}

pub record SyncOptions : Type 0 where
  pub cursor : Option Text
  pub type_ : Option Text
  pub surface : Option Text
  pub limit : Option ℕ
  pub retries : Option ℕ
  pub retry_delay_ms : Option ℕ
  pub signal : Option Signal

pub record SyncPage : Type 0 where
  pub items : List Json
  pub cursor : Text
  pub has_more : Bool

pub record SyncResult : Type 0 where
  pub items : List Json
  pub cursor : Text

abbrev pub truthy? : Option Json → Bool
truthy? none = false
truthy? (some j) = is_truthy j

abbrev pub items_of : Option Json → List Json
items_of (some (arr js)) = items js
items_of _ = []

-- The cast of an answer.
unfoldable pub as_page : Json → SyncPage
as_page body = record {
  items = items_of (get (codes "items") body);
  cursor = or_else (string_of (get (codes "cursor") body)) [];
  has_more = truthy? (get (codes "has_more") body);
}

-- What a page is asked for with: `initial` without a cursor, else the cursor.
unfoldable pub page_params : Option Text → SyncOptions → Params
page_params none options =
    let p1 =
      append_if_present ((codes "initial", codes "true") ∷ []) (codes "type") options.type_ in
    let p2 = append_if_present p1 (codes "surface") options.surface in
    append_if_present p2 (codes "limit") (shown options.limit)
page_params (some cursor) options =
    append_if_present ((codes "cursor", cursor) ∷ []) (codes "limit") (shown options.limit)

abbrev pub sync_path : Text
sync_path = codes "/api/sync"

module _ {S : Type 0} (platform : Platform S) (client : KilnClient) (options : SyncOptions) where
  open platform use {sleep}

  unfoldable pub sync_page : Option Text → Call S SyncPage
  sync_page cursor = do
    body ←
        request platform client get_method sync_path (page_params cursor options) options.signal
          plain_json
    return (as_page body)

  -- The wait between two attempts, which an abort ends with what it throws.
  unfoldable pub pause : Call S (Unit {0})
  pause s = rested (sleep (or_else options.retry_delay_ms 2000) options.signal s)
    where
      rested : S × Result Thrown (Unit {0}) → S × Result KilnError (Unit {0})
      rested (t, err thrown) = (t, err (foreign thrown))
      rested (t, ok tt) = (t, ok tt)

  -- The attempts at a page, with the number of retries that are left.
  unfoldable pub attempts : ℕ → Option Text → Call S SyncPage
  attempts zero cursor = sync_page cursor
  attempts (suc left) cursor =
      catch (sync_page cursor)
        (λ error. if is_status 503 error then pause >> attempts left cursor else throw error)

  unfoldable pub page_with_retry : Option Text → Call S SyncPage
  page_with_retry cursor = attempts (or_else options.retries 3) cursor

  -- The pages from a cursor on, after the items that are there already.
  unfoldable pub sync_from : ℕ → Option Text → List Json → Call S (Option SyncResult)
  sync_from zero cursor acc = return none
  sync_from (suc fuel) cursor acc = do
    page ← page_with_retry cursor
    if page.has_more
        then sync_from fuel (some page.cursor) (acc ++ page.items)
        else return (some (record { items = acc ++ page.items; cursor = page.cursor }))

  unfoldable pub sync : ℕ → Call S (Option SyncResult)
  sync fuel = sync_from fuel options.cursor []
