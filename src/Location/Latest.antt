-- ===== src/Location/Latest.antt =====
-- What the hook shows: the flag of loading, and the answer to the last request.
use autospace_parking.Prelude.{
  ℕ, ◌≡◌, ◌≢◌, refl, sym, subst, ap, ◌∙◌, String, Bool, true, false, not, ◌||◌, Option, some, List,
  [], ◌∷◌, ◌⊎◌, inl, inr, eqb, arith, All, Bool-cases,
}
use autospace_parking.Js.Text.{truthy, truthy?, trim}
use autospace_parking.Location.Places.{MapboxFeature, places}
use autospace_parking.Location.{
  Answer, features, not_ok, failed, Request, absent, waiting, answered, Search, cleanup, effect,
  show, finish, is_current, settle, settle_all, Aborted, Step, searches, answers, rejects, Reach,
  mounted, later,
}

module _ (C : Type 0) where
  abbrev is_waiting : Request → Bool
  is_waiting (waiting i) = true
  is_waiting _ = false

  -- `loading` is set exactly while the last request is on its way.
  abbrev pub IsValid : Search C → Type 0
  IsValid s = s.loading ≡ is_waiting s.request

  -- Neither the last request nor one that it has answered.
  abbrev IsPast : ℕ → Request → Type 0
  IsPast i r = (r ≢ waiting i) × (r ≢ answered i)

  is_current-IsPast : (i : ℕ) (r : Request) → IsPast i r → is_current C i r ≡ false
  unfolding is_current
  is_current-IsPast i absent h = refl
  is_current-IsPast i (waiting j) h = elim (Bool-cases (eqb i j)) [
    | inl e ↦ absurd (h.0 (ap waiting (ground arith)))
    | inr e ↦ e
  ]
  is_current-IsPast i (answered j) h = elim (Bool-cases (eqb i j)) [
    | inl e ↦ absurd (h.1 (ap answered (ground arith)))
    | inr e ↦ e
  ]

  settle_past :
      (i : ℕ) (answer : Answer C) (s : Search C)
      → IsPast i s.request
      → Aborted C answer
      → settle C i answer s ≡ s
  unfolding settle show finish
  settle_past i answer s past (message, is_abort) =
      rw (is_abort, is_current-IsPast i s.request past) refl

  current_waiting : (i : ℕ) (r : Request) → r ≡ waiting i → is_current C i r ≡ true
  unfolding is_current
  current_waiting i r h = rw h (ground arith)

  show_request : (answer : Answer C) (s : Search C) → (show C answer s).request ≡ s.request
  unfolding show
  show_request (features found) s = refl
  show_request not_ok s = refl
  show_request (failed thrown) s = ground arith

  settle_waiting :
      (i : ℕ) (answer : Answer C) (s : Search C)
      → s.request ≡ waiting i
      → settle C i answer s ≡ record (show C answer s) { loading = false; request = answered i }
  unfolding settle finish
  settle_waiting i answer s h =
      rw (current_waiting i (show C answer s).request (show_request answer s ∙ h)) refl

  effect-IsValid :
      (token : Option String) (text : String) (s : Search C) → IsValid (effect C token text s)
  unfolding effect cleanup
  effect-IsValid token text s =
      elim (Bool-cases (not (truthy (trim text)) || not (truthy? token))) [
        | inl e ↦ rw e refl
        | inr e ↦ rw e refl
      ]

  Step-IsValid : {s u : Search C} → Step C s u → IsValid s → IsValid u
  Step-IsValid (searches token text s) v = effect-IsValid token text s
  Step-IsValid (answers i answer s h) v = subst IsValid (sym (settle_waiting i answer s h)) refl
  Step-IsValid (rejects i answer s p q is_abort) v =
      subst IsValid (sym (settle_past i answer s (p, q) is_abort)) v

  -- In every state that the hook reaches, loading is set exactly while its last request is on its
  -- way.
  loading-IsValid : {s : Search C} → Reach C s → IsValid s
  loading-IsValid mounted = refl
  loading-IsValid (later r s) = Step-IsValid s (loading-IsValid r)

  -- Requests other than `i`, all aborted.
  abbrev pub Others : ℕ → List (ℕ × Answer C) → Type 0
  Others i ends = All (λ (e : ℕ × Answer C). (e.0 ≢ i) × Aborted C e.1) ends

  abbrev number : Request → ℕ
  number absent = 0
  number (waiting i) = i
  number (answered i) = i

  abbrev Is : ℕ → Request → Type 0
  Is i r = (r ≡ waiting i) ⊎ (r ≡ answered i)

  others-IsPast : (i j : ℕ) (r : Request) → Is i r → j ≢ i → IsPast j r
  others-IsPast i j r (inl h) other = (λ e. other (sym (ap number e) ∙ ap number h), λ e. cc (e, h))
  others-IsPast i j r (inr h) other = (λ e. cc (e, h), λ e. other (sym (ap number e) ∙ ap number h))

  settle-Others :
      (i : ℕ) (ends : List (ℕ × Answer C)) (s : Search C)
      → Is i s.request
      → Others i ends
      → settle_all C ends s ≡ s
  unfolding settle_all
  settle-Others i [] s h others = refl
  settle-Others i ((j, answer) ∷ ends) s h others =
      let past = others-IsPast i j s.request h others.0.0 in
      rw (settle_past j answer s past others.0.1) (settle-Others i ends s h others.1)

  effect_request :
      (token : Option String) (text : String) (s : Search C)
      → truthy (trim text) ≡ true
      → truthy? token ≡ true
      → (effect C token text s).request ≡ waiting s.next
  unfolding effect
  effect_request token text s p q = rw (p, q) refl

  -- After the effect has run for a text that is not blank, with an access token set, the places
  -- that answer its request are what is shown and the hook has stopped loading, whichever earlier
  -- requests are rejected as aborted before the answer or after it.
  pub latest_answer :
      (token : Option String) (text : String) (s : Search C) (found : List (MapboxFeature C))
      (before after : List (ℕ × Answer C))
      → truthy (trim text) ≡ true
      → truthy? token ≡ true
      → Others s.next before
      → Others s.next after
      → let u =
          settle_all C after (
            settle C s.next
              (features (some found))
              (settle_all C before (effect C token text s))) in
        (u.location_info ≡ places found) × (u.loading ≡ false)
  latest_answer token text s found before after p q before_past after_past =
      let e = effect C token text s in
      let on_its_way = effect_request token text s p q in
      let ended = settle_waiting s.next (features (some found)) e on_its_way in
      rw
        (
          settle-Others s.next before e (inl on_its_way) before_past,
          settle-Others s.next after (settle C s.next (features (some found)) e)
              (inr (ap (λ (x : Search C). x.request) ended)) after_past,
          ended,
        )
        (unfold show in (refl, refl))
