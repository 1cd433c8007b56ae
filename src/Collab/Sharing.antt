-- ===== src/Collab/Sharing.antt =====
-- Who shares a document, and when its channel is joined and left.
use kiln_cms.Prelude.{
  ℕ, zero, suc, ◌<◌, ◌≡◌, ◌⊎◌, refl, Bool, true, not, keep, Option, none, some, List, [], ◌∷◌, ◌++◌,
  All, length, ◌==◌, ltb, if◌then◌else◌, Bool-cases, Option-cases, inl, inr, subst, sym, ap, arith,
}
use kiln_cms.Collab.{
  Shared, ChannelAction, joins, leaves, acquire, release, Reply, ok, refused, is_transient, receive,
  receive_all,
}

-- Taking the element with an index out of a list.
abbrev pub without : ℕ → List ℕ → List ℕ
without i [] = []
without zero (x ∷ xs) = xs
without (suc i) (x ∷ xs) = x ∷ without i xs

abbrev at : ℕ → List ℕ → Option ℕ
at i [] = none
at zero (x ∷ xs) = some x
at (suc i) (x ∷ xs) = at i xs

-- A user comes, or the holder with that index lets its handle go.
pub data Use : Type 0 where
  comes : Use
  goes : ℕ → Use

-- The topic, the handles that are held, and what was done to channels, each handle being released
-- once at most.
unfoldable pub use_all :
    List Use → Shared × List ℕ × List ChannelAction → Shared × List ℕ × List ChannelAction
use_all [] s = s
use_all (comes ∷ us) (s, held, done) =
    let (t, handle, actions) = acquire s in use_all us (t, handle ∷ held, done ++ actions)
use_all (goes i ∷ us) (s, held, done) = elim (at i held) [
  | none ↦ use_all us (s, held, done)
  | some handle ↦
      let (t, actions) = release handle s in use_all us (t, without i held, done ++ actions)
]

-- The channels that are joined: those joined and not left since.
abbrev pub open_channels : List ChannelAction → List ℕ → List ℕ
open_channels [] open_ = open_
open_channels (joins d ∷ as_) open_ = open_channels as_ (d ∷ open_)
open_channels (leaves d ∷ as_) open_ = open_channels as_ (keep (λ c. not (c == d)) open_)

-- Nobody holds a handle, and no channel is joined; or all hold the same document's, its users are as
-- many, and its channel alone is joined.
abbrev pub IsShared : Shared → List ℕ → List ℕ → Type 0
IsShared s held open_ =
    ((held ≡ []) × (s.entry ≡ none) × (open_ ≡ []))
    ⊎ ((doc : ℕ) × All (λ d. d ≡ doc) held
        × (0 < length held)
        × (s.entry ≡ some (doc, length held))
        × (open_ ≡ doc ∷ []))

open_channels-append :
    (xs ys : List ChannelAction) (open_ : List ℕ)
    → open_channels (xs ++ ys) open_ ≡ open_channels ys (open_channels xs open_)
open_channels-append [] ys open_ = refl
open_channels-append (joins d ∷ xs) ys open_ = open_channels-append xs ys (d ∷ open_)
open_channels-append (leaves d ∷ xs) ys open_ =
    open_channels-append xs ys (keep (λ c. not (c == d)) open_)

acquire-IsShared :
    (s : Shared) (held open_ : List ℕ)
    → IsShared s held open_
    → IsShared (acquire s).0 ((acquire s).1 ∷ held) (open_channels (acquire s).2 open_)
unfolding acquire
acquire-IsShared s held open_ (inl (e, none_, o)) =
    rw (none_, acquire, o, e) (inr (s.made, (refl, tt), omega arith, refl, refl))
acquire-IsShared s held open_ (inr (doc, all_, some_, e, o)) =
    rw (e, acquire, o)
      (inr (doc, (refl, all_), omega arith, ap (λ n. some (doc, n)) (omega arith), refl))

length-without :
    (i : ℕ) (held : List ℕ) {h : ℕ}
    → at i held ≡ some h
    → length held ≡ suc (length (without i held))
length-without i [] e = ground arith
length-without zero (x ∷ held) e = refl
length-without (suc i) (x ∷ held) e = ap suc (length-without i held e)

All-without : (P : ℕ → Type 0) (i : ℕ) (held : List ℕ) → All P held → All P (without i held)
All-without P i [] h = tt
All-without P zero (x ∷ held) h = h.1
All-without P (suc i) (x ∷ held) h = (h.0, All-without P i held h.1)

All-at : (P : ℕ → Type 0) (i : ℕ) (held : List ℕ) {x : ℕ} → All P held → at i held ≡ some x → P x
All-at P i [] h e = ground arith
All-at P zero (y ∷ held) h e = subst P (ground (arith, e)) h.0
All-at P (suc i) (y ∷ held) h e = All-at P i held h.1 e

length-zero : (xs : List ℕ) → length xs ≡ 0 → xs ≡ []
length-zero [] e = refl
length-zero (x ∷ xs) e = ground arith

release-IsShared :
    (s : Shared) (held open_ : List ℕ) (i : ℕ) {h : ℕ}
    → at i held ≡ some h
    → IsShared s held open_
    → IsShared (release h s).0 (without i held) (open_channels (release h s).1 open_)
unfolding release
release-IsShared s held open_ i {h} e (inl (empty, _, _)) =
    ground (arith, subst (λ l. at i l ≡ some h) empty e)
release-IsShared s held open_ i {h} e (inr (doc, all_, some_, entry, o)) =
    let test : (doc == h) ≡ true = ground (arith, All-at (λ d. d ≡ doc) i held all_ e) in
    let shorter : length held ≡ suc (length (without i held)) = length-without i held e in
    elim (Bool-cases (ltb 1 (length held))) [
      | inl more ↦
          rw (entry, release, test, more, o)
            (inr (
              doc,
              All-without (λ d. d ≡ doc) i held all_,
              ground (arith, shorter, more),
              ap (λ n. some (doc, n)) (ground (arith, shorter)),
              refl,
            ))
      | inr last ↦
          rw (entry, release, test, last, o)
            (inl (length-zero (without i held) (ground (arith, shorter, last)), refl, rw test refl))
    ]

use_all-IsShared_from :
    (us : List Use) (s : Shared) (held : List ℕ) (done : List ChannelAction)
    → IsShared s held (open_channels done [])
    → let (t, held', done') = use_all us (s, held, done) in
      IsShared t held' (open_channels done' [])
unfolding use_all
use_all-IsShared_from [] s held done h = h
use_all-IsShared_from (comes ∷ us) s held done h =
    use_all-IsShared_from us (acquire s).0 ((acquire s).1 ∷ held) (done ++ (acquire s).2) (
      subst (IsShared (acquire s).0 ((acquire s).1 ∷ held))
        (sym (open_channels-append done (acquire s).2 []))
        (acquire-IsShared s held (open_channels done []) h))
use_all-IsShared_from (goes i ∷ us) s held done h = elim (Option-cases (at i held)) [
  | inl nobody ↦ rw (nobody, use_all) (use_all-IsShared_from us s held done h)
  | inr (handle, e) ↦
      rw (e, use_all)
        (use_all-IsShared_from us (release handle s).0 (without i held)
          (done ++ (release handle s).1)
          (subst (IsShared (release handle s).0 (without i held))
            (sym (open_channels-append done (release handle s).1 []))
            (release-IsShared s held (open_channels done []) i e h)))
]

-- However users of a topic come and go, each releasing its handle once at most: while anyone holds
-- a handle, all hold that of one document, its users are counted right, and its channel alone is
-- joined; when nobody does, no document is registered and every channel that was joined is left.
pub use_all-IsShared :
    (us : List Use) (made : ℕ)
    → let (t, held, done) = use_all us (record { entry = none; made = made }, [], []) in
      IsShared t held (open_channels done [])
use_all-IsShared us made =
    use_all-IsShared_from us (record { entry = none; made = made }) [] [] (inl (refl, refl, refl))

-- Where the first answer that is not a transient refusal is a join, the first peer is told by the
-- number of peers; where it is a refusal, this counts as the first peer.
abbrev pub first_answer : List Reply → Option Bool
first_answer [] = none
first_answer (ok peers ∷ rs) = some (peers == 1)
first_answer (refused reason ∷ rs) =
    let later = first_answer rs in if is_transient reason then later else some true

receive_all-resolved : (rs : List Reply) (b : Bool) → receive_all rs (some b) ≡ some b
unfolding receive_all receive
receive_all-resolved [] b = refl
receive_all-resolved (ok peers ∷ rs) b = receive_all-resolved rs b
receive_all-resolved (refused reason ∷ rs) b = elim (Bool-cases (is_transient reason)) [
  | inl passing ↦ rw passing (receive_all-resolved rs b)
  | inr final ↦ rw final (receive_all-resolved rs b)
]

-- The promise `whenReady` is decided by the first answer to a join that is not a refusal over
-- budget, and by nothing that comes after it; without one it stays open.
pub receive_all-first : (rs : List Reply) → receive_all rs none ≡ first_answer rs
unfolding receive_all receive
receive_all-first [] = refl
receive_all-first (ok peers ∷ rs) = receive_all-resolved rs (peers == 1)
receive_all-first (refused reason ∷ rs) = elim (Bool-cases (is_transient reason)) [
  | inl passing ↦ rw passing (receive_all-first rs)
  | inr final ↦ rw final (receive_all-resolved rs true)
]
