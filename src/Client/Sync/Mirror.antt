-- ===== src/Client/Sync/Mirror.antt =====
-- What `sync` brings back from a server whose feed ends.
use kiln_cms.Prelude.{
  ℕ, zero, suc, ◌≤◌, ◌<◌, ◌≡◌, ◌⊎◌, inl, inr, refl, sym, ap, ◌∙◌, true, false, Option, some,
  or_else, List, [], ◌++◌, append_assoc, Text, Result, err, ok, if◌then◌else◌, arith,
}
use kiln_cms.Json.{Json}
use kiln_cms.Errors.{KilnError, KilnHttpError, http}
use kiln_cms.Client.{
  KilnClient, Platform, Request, plain_json, ◌>>◌, Call, after, caught, return, throw,
}
use kiln_cms.Client.Sending.{IsAnswered, IsBusy, get_request, request-answered, request-busy}
use kiln_cms.Client.Reads.{get_method}
use kiln_cms.Client.Delivery.{is_status}
use kiln_cms.Client.Sync.{
  SyncOptions, SyncPage, SyncResult, as_page, page_params, sync_path, sync_page, pause, attempts,
  page_with_retry, sync_from, sync,
}

-- What a server still has to say after a cursor: the items, in some number of pages after the next
-- one, and the cursor that stands at the end.
pub record Feed : Type 0 where
  pub content : Option Text → List Json
  pub left : Option Text → ℕ
  pub end : Text

-- A page after a cursor: the last one, or one with others after it.
abbrev pub FitsPage : Feed → Option Text → SyncPage → Type 0
FitsPage feed cursor page =
    ((page.has_more ≡ false)
      × (feed.left cursor ≡ 0)
      × (page.items ≡ feed.content cursor)
      × (page.cursor ≡ feed.end))
    ⊎ ((page.has_more ≡ true)
        × (feed.left cursor ≡ suc (feed.left (some page.cursor)))
        × (feed.content cursor ≡ page.items ++ feed.content (some page.cursor)))

abbrev pub retries_of : SyncOptions → ℕ
retries_of options = or_else options.retries 3

module _ {S : Type 0} (platform : Platform S) (client : KilnClient) (options : SyncOptions) where
  abbrev page_request : Option Text → S → Request
  page_request cursor s =
      get_request platform client get_method sync_path (page_params cursor options) options.signal
        plain_json s

  -- A server with such a feed. It answers with the next page, or for the while, `busy`, with a 503;
  -- after a page it is not busy for longer than the client has retries. Waits are not cut short.
  pub record IsServer (feed : Feed) (busy : S → ℕ) : Type 0 where
    pub answers :
        (s : S) (cursor : Option Text)
        → ((t : S) × IsBusy platform (page_request cursor s) s t × (busy t < busy s))
          ⊎ ((t : S) × (j : Json) × IsAnswered platform (page_request cursor s) s t j
              × (busy t ≤ retries_of options)
              × FitsPage feed cursor (as_page j))
    pub rests :
        (s : S)
        → (t : S) × (platform.sleep (or_else options.retry_delay_ms 2000) options.signal s
            ≡ (t, ok tt))
          × (busy t ≤ busy s)

  module _ (feed : Feed) (busy : S → ℕ) (server : IsServer feed busy) where
    sync_page-answered :
        (s t : S) (cursor : Option Text) (j : Json)
        → IsAnswered platform (page_request cursor s) s t j
        → sync_page platform client options cursor s ≡ (t, ok (as_page j))
    unfolding sync_page
    sync_page-answered s t cursor j answered =
        ap (λ r. after r (λ body. return (as_page body)))
          (request-answered platform client _ _ _ _ _ s t j answered)

    sync_page-busy :
        (s t : S) (cursor : Option Text)
        → IsBusy platform (page_request cursor s) s t
        → (error : KilnHttpError) × (sync_page platform client options cursor s
            ≡ (t, err (http error)))
          × (error.status ≡ 503)
    unfolding sync_page
    sync_page-busy s t cursor refused =
        let (error, e, status) = request-busy platform client _ _ _ _ _ s t refused in
        (error, ap (λ r. after r (λ body. return (as_page body))) e, status)

    -- What an attempt at a page comes to in the end.
    abbrev IsPage : Option Text → S × Result KilnError SyncPage → Type 0
    IsPage cursor r =
        (t : S) × (page : SyncPage) × (r ≡ (t, ok page))
        × (busy t ≤ retries_of options)
        × FitsPage feed cursor page

    pause-rests :
        (t u : S)
        → platform.sleep (or_else options.retry_delay_ms 2000) options.signal t ≡ (u, ok tt)
        → pause platform client options t ≡ (u, ok tt)
    unfolding pause
    pause-rests t u slept = rw slept refl

    -- The handler of an attempt that has others after it.
    abbrev retrying : ℕ → Option Text → KilnError → Call S SyncPage
    retrying n cursor error =
        if is_status 503 error
        then pause platform client options >> attempts platform client options n cursor
        else throw error

    retrying-busy :
        (n : ℕ) (cursor : Option Text) (error : KilnHttpError) (t u : S)
        → error.status ≡ 503
        → pause platform client options t ≡ (u, ok tt)
        → retrying n cursor (http error) t ≡ attempts platform client options n cursor u
    unfolding is_status
    retrying-busy n cursor error t u status rested = rw (status, rested) refl

    attempts-IsPage :
        (n : ℕ) (cursor : Option Text) (s : S)
        → busy s ≤ n
        → IsPage cursor (attempts platform client options n cursor s)
    unfolding attempts
    attempts-IsPage zero cursor s h = elim (server.answers s cursor) [
      | inl (t, refused, less) ↦ absurd (omega (arith, h, less))
      | inr (t, j, answered, calm, fits) ↦
          (t, as_page j, sync_page-answered s t cursor j answered, calm, fits)
    ]
    attempts-IsPage (suc n) cursor s h = elim (server.answers s cursor) [
      | inl (t, refused, less) ↦
          let (error, e, status) = sync_page-busy s t cursor refused in
          let (u, slept, shorter) = server.rests t in
          let (v, page, got, calm, fits) =
            attempts-IsPage n cursor u (omega (arith, h, less, shorter)) in
          (
            v,
            page,
            ap (λ r. caught r (retrying n cursor)) e
                ∙ (retrying-busy n cursor error t u status (pause-rests t u slept) ∙ got),
            calm,
            fits,
          )
      | inr (t, j, answered, calm, fits) ↦ (
        t,
        as_page j,
        ap (λ r. caught r (retrying n cursor)) (sync_page-answered s t cursor j answered),
        calm,
        fits,
      )
    ]

    -- What the loop does with a page.
    abbrev go_on : ℕ → List Json → SyncPage → Call S (Option SyncResult)
    go_on fuel acc page =
        if page.has_more
        then sync_from platform client options fuel (some page.cursor) (acc ++ page.items)
        else return (some (record { items = acc ++ page.items; cursor = page.cursor }))

    go_on-more :
        (fuel : ℕ) (acc : List Json) (page : SyncPage) (t : S)
        → page.has_more ≡ true
        → go_on fuel acc page t
          ≡ sync_from platform client options fuel (some page.cursor) (acc ++ page.items) t
    go_on-more fuel acc page t more = rw more refl

    abbrev finished : S → List Json → S × Result KilnError (Option SyncResult)
    finished u l = (u, ok (some (record { items = l; cursor = feed.end })))

    sync_from-Feed :
        (fuel : ℕ) (cursor : Option Text) (acc : List Json) (s : S)
        → busy s ≤ retries_of options
        → feed.left cursor < fuel
        → (t : S) × (sync_from platform client options fuel cursor acc s
            ≡ (t, ok (some (record { items = acc ++ feed.content cursor; cursor = feed.end }))))
    unfolding sync_from page_with_retry
    sync_from-Feed zero cursor acc s calm h = absurd (omega (arith, h))
    sync_from-Feed (suc fuel) cursor acc s calm h =
        let (t, page, got, calm_, fits) = attempts-IsPage (retries_of options) cursor s calm in
        let stepped = ap (λ r. after r (go_on fuel acc)) got in
        elim fits [
          | inl (last, _, all_, stop) ↦ (t, stepped ∙ rw (last, all_, stop) refl)
          | inr (more, fewer, joined) ↦
              let (u, done) =
                sync_from-Feed fuel (some page.cursor) (acc ++ page.items) t calm_
                  (omega (arith, h, fewer)) in
              (
                u,
                stepped
                    ∙ (go_on-more fuel acc page t more
                        ∙ (done
                            ∙ ap (finished u)
                                (append_assoc acc page.items _ ∙ ap (λ l. acc ++ l) (sym joined)))),
              )
        ]

    -- However often it is busy for the while, a server whose feed ends is followed to its end: given fuel
    -- for more pages than are left, `sync` answers with the whole content of the feed from the cursor on,
    -- in order, and with the cursor of its end.
    pub sync-Feed :
        (fuel : ℕ) (s : S)
        → busy s ≤ retries_of options
        → feed.left options.cursor < fuel
        → (t : S) × (sync platform client options fuel s
            ≡ (t, ok (some (record { items = feed.content options.cursor; cursor = feed.end }))))
    unfolding sync
    sync-Feed fuel s calm h = sync_from-Feed fuel options.cursor [] s calm h
