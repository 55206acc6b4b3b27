-- ===== src/Emission/Marks.antt =====
-- The photons of a burst (quisp/modules/stationaryQubit.cc and RuleEngine.cc): which of them are
-- marked as the first and the last, for the analyzer.
use quisp.Prelude.{
  ℕ, zero, suc, ◌+◌, ℤ, pos, Bool, true, false, if◌then◌else◌, List, [], ◌∷◌, ◌++◌, replicate,
  Result, ok, ◌>>=◌, ◌<◌, ◌≡◌, refl, ap, ◌∙◌, arith,
}
use quisp.Qubits.{World}
use quisp.Analyzer.{Photon}
use quisp.Engine.Bursts.{Station, Schedule, EmitPhotonRequest}
use quisp.Engine.Bursts.Shooting.{run_burst, kinds, kinds_of, HasFree, run_burst-all}
use quisp.Emission.{begins, ends, marked, generate_entangled_photon, emit_photon, leave}

-- The photons that memories emit for requests of the given kinds: the request of number i goes to a
-- memory in a world of its own.
unfoldable pub photons :
    (qubit : ℕ → ℕ) → (world : ℕ → World) → (failure i : ℕ) → List ℕ → Result (List Photon)
unfolding emit_photon leave
photons qubit world failure i [] = ok []
photons qubit world failure i (kind ∷ kinds) = do
  pk ← emit_photon kind (qubit i) (world i)
  rest ← photons qubit world failure (i + 1) kinds
  ok ((leave failure pk (qubit i) (world i)).0 ∷ rest)

abbrev pub firsts : List Photon → List Bool
firsts [] = []
firsts (p ∷ ps) = p.first ∷ firsts ps

abbrev pub lasts : List Photon → List Bool
lasts [] = []
lasts (p ∷ ps) = p.last ∷ lasts ps

abbrev first_marks : List ℕ → List Bool
first_marks [] = []
first_marks (k ∷ ks) = begins k ∷ first_marks ks

abbrev last_marks : List ℕ → List Bool
last_marks [] = []
last_marks (k ∷ ks) = ends k ∷ last_marks ks

first_marks-kinds : (n : ℕ) → first_marks (kinds false n) ≡ replicate n false
first_marks-kinds zero = refl
first_marks-kinds (suc zero) = refl
first_marks-kinds (suc (suc n)) = ap (λ l. false ∷ l) (first_marks-kinds (suc n))

first_marks-begin : (n : ℕ) → first_marks (kinds true (suc n)) ≡ true ∷ replicate n false
first_marks-begin zero = refl
first_marks-begin (suc n) = ap (λ l. true ∷ l) (first_marks-kinds (suc n))

last_marks-kinds : (n : ℕ) → last_marks (kinds false (suc n)) ≡ replicate n false ++ (true ∷ [])
last_marks-kinds zero = refl
last_marks-kinds (suc n) = ap (λ l. false ∷ l) (last_marks-kinds n)

last_marks-begin : (n : ℕ) → last_marks (kinds true (suc n)) ≡ replicate n false ++ (true ∷ [])
last_marks-begin zero = refl
last_marks-begin (suc n) = ap (λ l. false ∷ l) (last_marks-kinds n)

leave-first :
    (failure : ℕ) (pk : Photon) (i : ℕ) (w : World) → (leave failure pk i w).0.first ≡ pk.first
unfolding leave
leave-first failure pk i w = ground arith

leave-last :
    (failure : ℕ) (pk : Photon) (i : ℕ) (w : World) → (leave failure pk i w).0.last ≡ pk.last
unfolding leave
leave-last failure pk i w = ground arith

or_false : (b : Bool) → (if b then true else false) ≡ b
or_false true = refl
or_false false = refl

emit_photon-idle :
    (kind i : ℕ) (w : World)
    → (w.qubits i).is_busy ≡ false
    → emit_photon kind i w ≡ ok (marked kind (generate_entangled_photon i w))
unfolding emit_photon
emit_photon-idle kind i w h = rw (emit_photon, h) refl

photons-marks :
    (qubit : ℕ → ℕ) (world : ℕ → World) (failure i : ℕ) (ks : List ℕ)
    → ((j : ℕ) → ((world j).qubits (qubit j)).is_busy ≡ false)
    → (ps : List Photon) × (photons qubit world failure i ks ≡ ok ps)
      × (firsts ps ≡ first_marks ks)
      × (lasts ps ≡ last_marks ks)
unfolding photons generate_entangled_photon
photons-marks qubit world failure i [] h = ([], refl, refl, refl)
photons-marks qubit world failure i (k ∷ ks) h =
    let (ps, run, fs, ls) = photons-marks qubit world failure (i + 1) ks h in
    let pk = marked k (generate_entangled_photon (qubit i) (world i)) in
    let p = (leave failure pk (qubit i) (world i)).0 in
    (
      p ∷ ps,
      rw (photons, emit_photon-idle k (qubit i) (world i) (h i), run) refl,
      ap (λ b. b ∷ firsts ps) (leave-first failure pk (qubit i) (world i) ∙ or_false (begins k))
          ∙ ap (λ l. begins k ∷ l) fs,
      ap (λ b. b ∷ lasts ps) (leave-last failure pk (qubit i) (world i) ∙ or_false (ends k))
          ∙ ap (λ l. ends k ∷ l) ls,
    )

-- A new burst over a qnic with n + 1 free qubits, given more than n + 1 rounds of fuel, ends by
-- itself, and where the memories that get its requests are not busy, each of them emits a photon, of
-- which exactly the first is marked as first and exactly the last as last, lost or not.
pub run_burst-photons :
    (fuel n : ℕ) (pk : Schedule) (now : ℤ) (s : Station) (qubit : ℕ → ℕ) (world : ℕ → World)
    (failure : ℕ)
    → pk.num_sent ≡ pos 0
    → HasFree pk s (suc n)
    → suc n < fuel
    → ((j : ℕ) → ((world j).qubits (qubit j)).is_busy ≡ false)
    → (es : List (ℤ × EmitPhotonRequest)) × (s' : Station) × (ps : List Photon) × (run_burst fuel pk
          now s
        ≡ ok (es, s'))
      × (photons qubit world failure 0 (kinds_of es) ≡ ok ps)
      × (firsts ps ≡ true ∷ replicate n false)
      × (lasts ps ≡ replicate n false ++ (true ∷ []))
run_burst-photons fuel n pk now s qubit world failure e h f idle =
    let (es, s', run, ks, ts, over) = run_burst-all fuel (suc n) 0 pk now s e h f in
    let (ps, emitted, fs, ls) = photons-marks qubit world failure 0 (kinds_of es) idle in
    (
      es,
      s',
      ps,
      run,
      emitted,
      fs ∙ ap first_marks ks ∙ first_marks-begin n,
      ls ∙ ap last_marks ks ∙ last_marks-begin n,
    )
