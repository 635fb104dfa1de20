-- ===== src/Pake/Loading/Counts.antt =====
-- What a run of the loader amounts to for one caller, in numbers.
use quicksend.Base.{ℕ, ◌+◌, ◌≡◌, refl, ap, List, [], ◌∷◌, ◌++◌, map, arith, ◌==◌, if◌then◌else◌}
use quicksend.Pake.Loading.{Event, Effect, call, import_script, go_run, resolved, refused}

-- What the effects amount to: imports of the script, starts of the module, and the answers that the
-- caller has got.
pub record Tally : Type 0 where
  pub imports : ℕ
  pub starts : ℕ
  pub resolves : ℕ
  pub refusals : ℕ

abbrev pub no_effects : Tally
no_effects = record { imports = 0; starts = 0; resolves = 0; refusals = 0 }

abbrev pub plus : Tally → Tally → Tally
plus t u = record {
  imports = t.imports + u.imports;
  starts = t.starts + u.starts;
  resolves = t.resolves + u.resolves;
  refusals = t.refusals + u.refusals;
}

module _ (k : ℕ) where
  -- 1 for the caller itself.
  abbrev pub own : ℕ → ℕ
  own j = if j == k then 1 else 0

  abbrev pub tally_of : Effect → Tally
  tally_of import_script = record no_effects { imports = 1 }
  tally_of go_run = record no_effects { starts = 1 }
  tally_of (resolved j) = record no_effects { resolves = own j }
  tally_of (refused j) = record no_effects { refusals = own j }
  tally_of _ = no_effects

  abbrev pub tally : List Effect → Tally
  tally [] = no_effects
  tally (e ∷ rest) = plus (tally_of e) (tally rest)

  -- How often the caller is in a list of callers.
  abbrev pub count : List ℕ → ℕ
  count [] = 0
  count (j ∷ js) = own j + count js

  abbrev pub call_of : Event → ℕ
  call_of (call j ready now) = own j
  call_of _ = 0

  abbrev pub calls : List Event → ℕ
  calls [] = 0
  calls (e ∷ rest) = call_of e + calls rest

  pub count-append : (xs ys : List ℕ) → count (xs ++ ys) ≡ count xs + count ys
  count-append [] ys = omega arith
  count-append (x ∷ xs) ys = omega (arith, count-append xs ys)

  pub tally-resolved :
      (ws : List ℕ) → tally (map resolved ws) ≡ record no_effects { resolves = count ws }
  tally-resolved [] = refl
  tally-resolved (w ∷ ws) = ap (plus (tally_of (resolved w))) (tally-resolved ws)

  pub tally-refused :
      (ws : List ℕ) → tally (map refused ws) ≡ record no_effects { refusals = count ws }
  tally-refused [] = refl
  tally-refused (w ∷ ws) = ap (plus (tally_of (refused w))) (tally-refused ws)

  pub tally-append : (xs ys : List Effect) → tally (xs ++ ys) ≡ plus (tally xs) (tally ys)
  tally-append [] ys = ground arith
  tally-append (e ∷ xs) ys = ground (arith, tally-append xs ys)
