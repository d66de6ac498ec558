-- ===== src/Shim/Essential.antt =====
-- The shim does not go on without an essential part.
use for_visibility.Prelude.{
  ◌≡◌, ◌≢◌, refl, sym, subst, ap, ◌∙◌, Bool, true, false, ◌||◌, ◌==◌, none, some, List, [], ◌∷◌,
  All, get_or, if◌then◌else◌, Bool-cases, inl, inr, arith,
}
use for_visibility.Shim.{
  Part, trace_http, gnmi, bmp, netlink, lldp, cgroup, ospf, fpm, Flags, Env, start_up, ends_process,
  part_id, without, run_process,
}

unfoldable pub runs : Part → List Part → Bool
runs p [] = false
runs p (q ∷ parts) = part_id q == part_id p || runs p parts

-- The parts whose failure ends the process.
abbrev pub IsEssential : Part → Type 0
IsEssential p = ends_process p true ≡ true

-- An essential part returns with an error: Serve does so until Stop, which nothing calls, and Run of
-- the BMP and of the FPM ingester has no other return.
abbrev pub ReturnsError : Part × Bool → Type 0
ReturnsError (p, failed) = IsEssential p → failed ≡ true

runs-without :
    (p q : Part) (parts : List Part)
    → part_id q ≢ part_id p
    → runs p (without q parts) ≡ runs p parts
unfolding runs without
runs-without p q [] other = refl
runs-without p q (r ∷ parts) other = ground (arith, runs-without p q parts other)

abbrev all_parts : List Part
all_parts = trace_http ∷ gnmi ∷ bmp ∷ netlink ∷ lldp ∷ cgroup ∷ ospf ∷ fpm ∷ []

of_id : (p : Part) → get_or all_parts (part_id p) fpm ≡ p
of_id trace_http = refl
of_id gnmi = refl
of_id bmp = refl
of_id netlink = refl
of_id lldp = refl
of_id cgroup = refl
of_id ospf = refl
of_id fpm = refl

part_id-same : (p q : Part) → part_id q ≡ part_id p → q ≡ p
part_id-same p q same = sym (of_id q) ∙ ap (λ n. get_or all_parts n fpm) same ∙ of_id p

-- the part `q` returned and the process lives: it was another one, if an essential part returns only
-- with an error
survives-other :
    (p q : Part) (failed : Bool)
    → IsEssential p
    → (IsEssential q → failed ≡ true)
    → ends_process q failed ≡ false
    → part_id q ≢ part_id p
survives-other p q failed essential h lives same =
    let ends : ends_process q failed ≡ true =
      ap (λ r. ends_process r failed) (part_id-same p q same)
      ∙ ap (ends_process p) (h (subst IsEssential (sym (part_id-same p q same)) essential))
      ∙ essential in
    cc

run_process-keeps :
    (p : Part) (parts parts' : List Part) (returned : List (Part × Bool))
    → IsEssential p
    → All ReturnsError returned
    → runs p parts ≡ true
    → run_process parts returned ≡ some parts'
    → runs p parts' ≡ true
unfolding run_process
run_process-keeps p parts parts' [] essential fails here e =
    let same : parts ≡ parts' = some_inj e in ap (runs p) (sym same) ∙ here
  where
    some_inj : {x y : List Part} → some x ≡ some y → x ≡ y
    some_inj h = cc
run_process-keeps p parts parts' ((q, failed) ∷ returned) essential (h, fails) here e =
    elim (Bool-cases (ends_process q failed)) [
      | inl ends ↦ absurd (none_some (sym (ended ends) ∙ e))
      | inr lives ↦
          run_process-keeps p (without q parts) parts' returned essential fails
            (runs-without p q parts (survives-other p q failed essential h lives) ∙ here)
            (sym (lived lives) ∙ e)
    ]
  where
    none_some : {x : List Part} → none ≡ some x → ⊥
    none_some h = cc

    ended :
        ends_process q failed ≡ true
        → (if ends_process q failed then none else run_process (without q parts) returned) ≡ none
    ended h = rw h refl

    lived :
        ends_process q failed ≡ false
        → (if ends_process q failed then none else run_process (without q parts) returned)
          ≡ run_process (without q parts) returned
    lived h = rw h refl

-- what `main` started, if it came so far
abbrev pub IsStarted : List Part → Type 0
IsStarted parts = (runs gnmi parts ≡ true) × (runs bmp parts ≡ true) × (runs fpm parts ≡ true)

start_up-IsStarted :
    (f : Flags) (env : Env) (parts : List Part) → start_up f env ≡ some parts → IsStarted parts
unfolding start_up runs
start_up-IsStarted f env parts e = ground arith

-- If `main` gets as far as the FPM ingester, then at any later time at which the process still lives
-- the gNMI server, the BMP and the FPM ingester run, whichever parts have returned by then.
pub process-IsStarted :
    (f : Flags) (env : Env) (parts parts' : List Part) (returned : List (Part × Bool))
    → start_up f env ≡ some parts
    → All ReturnsError returned
    → run_process parts returned ≡ some parts'
    → IsStarted parts'
unfolding ends_process
process-IsStarted f env parts parts' returned started fails lives =
    let (g, b, z) = start_up-IsStarted f env parts started in
    (
      run_process-keeps gnmi parts parts' returned refl fails g lives,
      run_process-keeps bmp parts parts' returned refl fails b lives,
      run_process-keeps fpm parts parts' returned refl fails z lives,
    )

-- Parts that are not essential may fail: the process lives on.
pub process-lives :
    (parts : List Part) (returned : List (Part × Bool))
    → All (λ (r : Part × Bool). ends_process r.0 r.1 ≡ false) returned
    → (parts' : List Part) × (run_process parts returned ≡ some parts')
unfolding run_process
process-lives parts [] h = (parts, refl)
process-lives parts ((q, failed) ∷ returned) (lives, h) =
    rw (lives) (process-lives (without q parts) returned h)
