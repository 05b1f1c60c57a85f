-- ===== src/Bloom/Loaded.antt =====
-- When a transaction filter takes an element.
use mathlib.Core.Path.{subst}
use elastos_ela_side_chain_t.Base.{
  ◌≡◌, ◌↔◌, refl, Bytes, List, [], ◌∷◌, Bool, true, false, ◌||◌, Option, none, some, Outcome, ok,
  ◌>>=◌, >>=-eq-ok, ok-injective, arith, Bool-cases, Option-cases, inl, inr,
}
use elastos_ela_side_chain_t.Types.{Transaction}
use elastos_ela_side_chain_t.Library.{Library}
use elastos_ela_side_chain_t.Bloom.{
  BloomFilters, load_found, load, add, match_filter, match, new_tx_filter,
}

-- The calls that a peer's messages make.
pub data Call : Type 0 where
  load_call add_call : Bytes → Call
  match_call : Transaction → Call

module _ {Filter : Type 0} (lib : Library) (filters : BloomFilters Filter) where
  -- The filter after one call, whatever its result; a panic ends the run.
  unfoldable pub step : Call → Option Filter → Outcome (Unit {0}) (Option Filter)
  step (load_call b) f = ok (load lib filters b f).1
  step (add_call b) f = ok (add lib filters b f).1
  step (match_call tx) f = do r ← match lib filters tx f; ok r.1

  -- The filter after a sequence of calls.
  unfoldable pub run : List Call → Option Filter → Outcome (Unit {0}) (Option Filter)
  run [] f = ok f
  run (c ∷ calls) f = do f' ← step c f; run calls f'

  is_there : Option Filter → Bool
  is_there none = false
  is_there (some f) = true

  -- Whether a call is a `Load` of a filter that can be read.
  unfoldable pub loads : Call → Bool
  unfolding is_there
  loads (load_call b) = is_there (filters.load_filter b)
  loads (add_call b) = false
  loads (match_call tx) = false

  unfoldable pub any_loads : List Call → Bool
  any_loads [] = false
  any_loads (c ∷ calls) = loads c || any_loads calls

  -- The filter is there and loaded exactly if the flag says so.
  abbrev pub Holds : Option Filter → Bool → Type 0
  Holds none loaded = loaded ≡ false
  Holds (some f) loaded = (filters.is_loaded f ≡ true) × (loaded ≡ true)

  match-Holds :
      (tx : Transaction) (f : Option Filter) (loaded : Bool) {r : Bool × Option Filter}
      → match lib filters tx f ≡ ok r
      → Holds f loaded
      → Holds r.1 loaded
  unfolding match match_filter
  match-Holds tx f loaded {r} e held = elim (Bool-cases (lib.is_register_asset_tx tx)) [
    | inl is ↦
        subst (λ (x : Bool × Option Filter). Holds x.1 loaded) (ok-injective (rw is at e)) held
    | inr is ↦ other f held (rw is at e)
  ]
    where
      other :
          (g : Option Filter)
          → Holds g loaded
          → match_filter lib filters tx g ≡ ok r
          → Holds r.1 loaded
      other none held e =
          let (b, answered, left) = >>=-eq-ok (filters.match_nil tx) _ (unfold match_filter in e) in
          subst (λ (x : Bool × Option Filter). Holds x.1 loaded) (ok-injective left) held
      other (some g) held e =
          subst (λ (x : Bool × Option Filter). Holds x.1 loaded)
            (ok-injective (unfold match_filter in e)) (filters.match_loaded g tx held.0, held.1)

  step-Holds :
      (c : Call) (f : Option Filter) (loaded : Bool) {f' : Option Filter}
      → step c f ≡ ok f'
      → Holds f loaded
      → Holds f' (loads c || loaded)
  unfolding step loads
  step-Holds (load_call b) f loaded {f'} e held =
      subst (λ x. Holds x (is_there (filters.load_filter b) || loaded)) (ok-injective e)
        (unfold load load_found in
          elim (Option-cases (filters.load_filter b)) [
            | inl bad ↦ rw bad held
            | inr (g, good) ↦ rw good (filters.load_filter_loaded b g good, refl)
          ])
  step-Holds (add_call b) none loaded e held =
      subst (λ x. Holds x loaded) (ok-injective e) (unfold add in held)
  step-Holds (add_call b) (some f) loaded e held =
      subst (λ x. Holds x loaded) (ok-injective e)
        (unfold add in rw held.0 (filters.add_loaded f b held.0, held.1))
  step-Holds (match_call tx) f loaded e held =
      let (r, matched, left) = >>=-eq-ok (match lib filters tx f) _ e in
      subst (λ x. Holds x loaded) (ok-injective left) (match-Holds tx f loaded matched held)

  run-Holds :
      (calls : List Call) (f : Option Filter) (loaded : Bool) {f' : Option Filter}
      → run calls f ≡ ok f'
      → Holds f loaded
      → Holds f' (any_loads calls || loaded)
  unfolding run any_loads
  run-Holds [] f loaded e held = subst (λ x. Holds x loaded) (ok-injective e) held
  run-Holds (c ∷ calls) f loaded {f'} e held =
      let (g, first, rest) = >>=-eq-ok (step c f) _ e in
      let same : (any_loads calls || (loads c || loaded))
          ≡ ((loads c || any_loads calls) || loaded) =
        ground arith in
      subst (Holds f') same
        (run-Holds calls g (loads c || loaded) rest (step-Holds c f loaded first held))

  -- A filter that starts empty accepts an element by `Add` after a sequence of calls exactly if one of
  -- them was a `Load` of a filter that can be read.
  pub add-run :
      (calls : List Call) (b : Bytes) {f : Option Filter}
      → run calls new_tx_filter ≡ ok f
      → ((add lib filters b f).0 ≡ ok tt) ↔ (any_loads calls ≡ true)
  unfolding add
  add-run calls b {f} e =
      let held : Holds f (any_loads calls || false) = run-Holds calls none false e refl in
      both f held
    where
      both :
          (g : Option Filter)
          → Holds g (any_loads calls || false)
          → ((add lib filters b g).0 ≡ ok tt) ↔ (any_loads calls ≡ true)
      both none held = (λ a. absurd (unfold add in cc), λ a. absurd (ground (arith, held)))
      both (some g) held = (λ a. ground (arith, held.1), λ a. unfold add in rw held.0 refl)
