-- ===== src/Object/Unpack/Ends.antt =====
-- src/rpc_object.c: the loop of rpc_object_unpack_layer ends, with the layers inside.
use librpc.Base.{Fault, subst, zero, List, ◌*◌, if◌then◌else◌}
use librpc.Object.Unpack.{Target, fresh_layer, unpack_loop, vunpack, fails, leaves, goes_on, Round}
use librpc.Base.Int.{ℤ}
use librpc.Base.{
  ◌+◌, Bool-cases, none, Outcome-cases, inr, ◌≤◌, length, [], suc, inl, ◌∷◌, ◌>>=◌, arith, no_fuel,
  some, fault, ok, ◌≢◌, Outcome, ◌≡◌, Option, Bytes, ℕ,
}
use librpc.Object.Unpack.{in_container, Outputs, ℤ, ℕ, Written, Layer}
use librpc.Object.Types.{Object}
use librpc.Object.Unpack.Rounds.{GoodLeft-position, Good, GoodLeft, left_mono, unpack_round_lem}

abbrev needs : Layer → ℕ
needs y = if in_container y then 2 else 1

needs_two : (y : Layer) → needs y ≤ 2
needs_two y = ground arith

step_lem :
    (fuel total : ℕ) (r : Outcome Round) (ch : ℕ) (rest : Bytes)
    → ((y : Layer) (o : Outputs) (prev : ℕ) (f : Bytes)
        → 2 * length f + needs y ≤ fuel
        → GoodLeft (unpack_loop fuel total y o prev f) f)
    → 2 * length rest + 2 ≤ fuel
    → Good r rest
    → GoodLeft
        (r >>= λ (t : Round). elim t [
          | fails ↦ ok none
          | leaves format q ↦ ok (some (format, q))
          | goes_on z q before format ↦ unpack_loop fuel total z q before format
        ])
        (ch ∷ rest)
step_lem fuel total (fault why) ch rest rec h g = g
step_lem fuel total (ok fails) ch rest rec h g = tt
step_lem fuel total (ok (leaves f q)) ch rest rec h g = omega arith
step_lem fuel total (ok (goes_on z q b f)) ch rest rec h g =
    let two = needs_two z in left_mono _ f (ch ∷ rest) (omega arith) (rec z q b f (omega arith))

loop_good :
    (fuel total : ℕ) (y : Layer) (o : Outputs) (prev : ℕ) (format : Bytes)
    → 2 * length format + needs y ≤ fuel
    → GoodLeft (unpack_loop fuel total y o prev format) format
unfolding unpack_loop
loop_good zero total y o prev format h = absurd (ground (arith, h))
loop_good (suc fuel) total y o prev [] h =
    GoodLeft-position total 0 (ok (some ([], o))) [] (omega arith)
loop_good (suc fuel) total y o prev (ch ∷ rest) h = elim (Bool-cases (in_container y)) [
  | inl into ↦
      let room : 2 * suc (length rest) + 2 ≤ suc fuel = ground (arith, h, into) in
      GoodLeft-position total (suc (length rest)) _ (ch ∷ rest) (
        step_lem fuel total _ ch rest (λ z q b f l. loop_good fuel total z q b f l) (omega arith)
          (unpack_round_lem (λ current f q. unpack_loop fuel total (fresh_layer current) q 0 f)
            (suc (length rest))
            (λ v f q l. loop_good fuel total (fresh_layer v) q 0 f (omega arith)) total y prev ch
            rest o (inl (omega arith))))
  | inr out ↦
      let room : 2 * suc (length rest) + 1 ≤ suc fuel = ground (arith, h, out) in
      GoodLeft-position total (suc (length rest)) _ (ch ∷ rest) (
        step_lem fuel total _ ch rest (λ z q b f l. loop_good fuel total z q b f l) (omega arith)
          (unpack_round_lem (λ current f q. unpack_loop fuel total (fresh_layer current) q 0 f) 0
            (λ v f q l. loop_good fuel total (fresh_layer v) q 0 f (omega arith)) total y prev ch
            rest o (inr out)))
]

fault_is :
    {why : Fault} → ◌≡◌ {A = Outcome (ℤ × List Written)} (fault why) (fault no_fuel) → why ≡ no_fuel
fault_is h = cc

-- rpc_object_vunpack comes to an end, be it a fault, on every format, object and list of arguments: the loop of
-- rpc_object_unpack_layer, with the layers inside, needs at most two rounds for each character of
-- the format and one more.
pub vunpack-ends :
    (o : Option Object) (format : Bytes) (targets : List Target)
    → vunpack o format targets ≢ fault no_fuel
unfolding vunpack
vunpack-ends none format targets = ground arith
vunpack-ends (some v) format targets =
    let start : Outputs = record { targets = targets; outs = []; count = 0 } in
    let fuel = suc (2 * length format) in
    let good = loop_good fuel (length format) (fresh_layer v) start 0 format (omega arith) in
    elim (Outcome-cases (unpack_loop fuel (length format) (fresh_layer v) start 0 format)) [
      | inl (why, e) ↦ rw e (λ n. subst (λ l. GoodLeft l format) e good (fault_is n))
      | inr (none, e) ↦ rw e (ground arith)
      | inr (some (rest, q), e) ↦ rw e (ground arith)
    ]
