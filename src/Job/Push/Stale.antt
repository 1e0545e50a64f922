-- ===== src/Job/Push/Stale.antt =====
-- Which entries of a route the reconciler removes.
use link_im.Prelude.{
  Bool, false, List, [], ◌∷◌, Option, none, some, ◌≡◌, ◌∙◌, refl, ap, inl, inr, Bool-cases,
  Option-cases, All, subst,
}
use link_im.Prelude.Bytes.{Bytes, bytes_eq, bytes_eq_iff, bytes_eq_refl}
use link_im.Job.Push.{
  PushWorld, PushCall, exists, comet_alive_key, cached, check_alive, stale_fields,
}

module _ (w : PushWorld) where
  -- Redis has given this answer about the instance at some time.
  abbrev pub Answered : Bytes → Bool → Type 0
  Answered addr b = (g : List PushCall) × (w.on_exists (exists (comet_alive_key addr) ∷ g) ≡ some b)

  abbrev pub IsCache : List (Bytes × Bool) → Type 0
  IsCache [] = Unit
  IsCache ((addr, b) ∷ cache) = Answered addr b × IsCache cache

  cached-Answered :
      (addr : Bytes) (b : Bool) (cache : List (Bytes × Bool))
      → IsCache cache
      → cached w addr cache ≡ some b
      → Answered addr b
  unfolding cached
  cached-Answered addr b [] c e = absurd (cc e)
  cached-Answered addr b ((a, v) ∷ cache) (ans, c) e = elim (Bool-cases (bytes_eq a addr)) [
    | inl q ↦ subst (λ x. Answered x b) ((bytes_eq_iff a addr).0 q) (ans.0, ans.1 ∙ (rw q at e))
    | inr q ↦ cached-Answered addr b cache c (rw q at e)
  ]

  -- A cache that was made by the first loop holds what Redis has answered.
  IsCacheIf : Option (List (Bytes × Bool)) → Type 0
  IsCacheIf none = Unit
  IsCacheIf (some cache) = IsCache cache

  check_alive-IsCache :
      (route : List (Bytes × Bytes)) (cache : List (Bytes × Bool)) (h : List PushCall)
      → IsCache cache
      → IsCacheIf (check_alive w route cache h).0
  unfolding check_alive IsCacheIf
  check_alive-IsCache [] cache h c = c
  check_alive-IsCache ((field, addr) ∷ route) cache h c =
      elim (Option-cases (cached w addr cache)) [
        | inr (b, e) ↦ rw (e, check_alive) (check_alive-IsCache route cache h c)
        | inl e ↦
            let h' = exists (comet_alive_key addr) ∷ h in
            elim (Option-cases (w.on_exists h')) [
              | inl f ↦ rw (e, check_alive, f) tt
              | inr (b, f) ↦
                  rw (e, check_alive, f)
                    (check_alive-IsCache route ((addr, b) ∷ cache) h' ((h, f), c))
            ]
      ]

  -- An address of which the cache knows something keeps it while the loop goes on.
  KeptIf : Bytes → Bool → Option (List (Bytes × Bool)) → Type 0
  KeptIf addr b none = Unit
  KeptIf addr b (some cache) = cached w addr cache ≡ some b

  cached-cons :
      (addr a : Bytes) (b v : Bool) (cache : List (Bytes × Bool))
      → cached w addr cache ≡ some b
      → cached w a cache ≡ none
      → cached w addr ((a, v) ∷ cache) ≡ some b
  cached-cons addr a b v cache e n = elim (Bool-cases (bytes_eq a addr)) [
    | inl q ↦ absurd (cc ((bytes_eq_iff a addr).0 q, e, n))
    | inr q ↦ unfold cached in rw (q, cached) e
  ]

  check_alive-KeptIf :
      (addr : Bytes) (b : Bool) (route : List (Bytes × Bytes)) (cache : List (Bytes × Bool))
      (h : List PushCall)
      → cached w addr cache ≡ some b
      → KeptIf addr b (check_alive w route cache h).0
  unfolding check_alive KeptIf
  check_alive-KeptIf addr b [] cache h c = c
  check_alive-KeptIf addr b ((field, a) ∷ route) cache h c =
      elim (Option-cases (cached w a cache)) [
        | inr (v, e) ↦ rw (e, check_alive) (check_alive-KeptIf addr b route cache h c)
        | inl e ↦
            let h' = exists (comet_alive_key a) ∷ h in
            elim (Option-cases (w.on_exists h')) [
              | inl f ↦ rw (e, check_alive, f) tt
              | inr (v, f) ↦
                  rw (e, check_alive, f)
                    (check_alive-KeptIf addr b route ((a, v) ∷ cache) h'
                      (cached-cons addr a b v cache c e))
            ]
      ]

  -- A field of the route whose instance Redis has answered to be gone.
  pub data Stale : List (Bytes × Bytes) → Bytes → Type 0 where
    here :
        (field addr : Bytes) (route : List (Bytes × Bytes))
        → Answered addr false
        → Stale ((field, addr) ∷ route) field
    later :
        (entry : Bytes × Bytes) (route : List (Bytes × Bytes)) (field : Bytes)
        → Stale route field
        → Stale (entry ∷ route) field

  -- The loop after its first round: the address it met is in the cache.
  record Round (addr : Bytes) (route : List (Bytes × Bytes)) (final : List (Bytes × Bool))
      : Type 0 where
    cache : List (Bytes × Bool)
    calls : List PushCall
    sound : IsCache cache
    answer : Bool
    found : cached w addr cache ≡ some answer
    rest : (check_alive w route cache calls).0 ≡ some final

  cached_first :
      (addr : Bytes) (b : Bool) (cache : List (Bytes × Bool))
      → cached w addr ((addr, b) ∷ cache) ≡ some b
  unfolding cached
  cached_first addr b cache = rw (bytes_eq_refl addr) refl

  check_alive-Round :
      (field addr : Bytes) (route : List (Bytes × Bytes)) (cache : List (Bytes × Bool))
      (h : List PushCall) (final : List (Bytes × Bool))
      → IsCache cache
      → (check_alive w ((field, addr) ∷ route) cache h).0 ≡ some final
      → Round addr route final
  unfolding check_alive
  check_alive-Round field addr route cache h final s e = elim (Option-cases (cached w addr cache)) [
    | inr (b, c) ↦ record {
      cache = cache;
      calls = h;
      sound = s;
      answer = b;
      found = c;
      rest = rw (c, check_alive) at e;
    }
    | inl c ↦
        let h' = exists (comet_alive_key addr) ∷ h in
        elim (Option-cases (w.on_exists h')) [
          | inl f ↦ absurd (cc (rw (c, check_alive, f) at e))
          | inr (b, f) ↦ record {
            cache = (addr, b) ∷ cache;
            calls = h';
            sound = ((h, f), s);
            answer = b;
            found = cached_first addr b cache;
            rest = rw (c, check_alive, f) at e;
          }
        ]
  ]

  All-later :
      (entry : Bytes × Bytes) (route : List (Bytes × Bytes)) (fs : List Bytes)
      → All (Stale route) fs
      → All (Stale (entry ∷ route)) fs
  All-later entry route [] a = tt
  All-later entry route (f ∷ fs) (p, a) = (later entry route f p, All-later entry route fs a)

  final-Answered :
      (addr : Bytes) (route : List (Bytes × Bytes)) (final : List (Bytes × Bool))
      → (r : Round addr route final) → cached w addr final ≡ some r.answer
  unfolding KeptIf
  final-Answered addr route final r =
      subst (KeptIf addr r.answer) r.rest
        (check_alive-KeptIf addr r.answer route r.cache r.calls r.found)

  stale_fields-Stale :
      (route : List (Bytes × Bytes)) (cache : List (Bytes × Bool)) (h : List PushCall)
      (final : List (Bytes × Bool))
      → IsCache cache
      → (check_alive w route cache h).0 ≡ some final
      → All (Stale route) (stale_fields w final route)
  unfolding stale_fields
  stale_fields-Stale [] cache h final s e = tt
  stale_fields-Stale ((field, addr) ∷ route) cache h final s e =
      let r = check_alive-Round field addr route cache h final s e in
      let more =
        All-later (field, addr) route (stale_fields w final route)
          (stale_fields-Stale route r.cache r.calls final r.sound r.rest) in
      elim (Bool-cases r.answer) [
        | inl t ↦ rw (final-Answered addr route final r, t) more
        | inr f ↦
            rw (final-Answered addr route final r, f)
              (
                here field addr route
                    (cached-Answered addr false r.cache r.sound (r.found ∙ ap some f)),
                more,
              )
      ]

  -- If the first loop has checked all addresses of a route, every field that is then removed
  -- belongs to an instance of which Redis has answered that it is not alive.
  pub reconciled-Stale :
      (route : List (Bytes × Bytes)) (h : List PushCall) (cache : List (Bytes × Bool))
      → (check_alive w route [] h).0 ≡ some cache
      → All (Stale route) (stale_fields w cache route)
  reconciled-Stale route h cache e = stale_fields-Stale route [] h cache tt e
