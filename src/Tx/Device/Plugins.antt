-- ===== src/Tx/Device/Plugins.antt =====
-- `ensureSoapyPluginPath` of src/tx/SoapyTx.cpp, for Windows. Texts are lists of characters, the variables of
-- the environment are the process's and that of the C library, and what the system says of a path is an
-- argument.
use site_sim.Base.{
  ℕ, suc, ◌+◌, ◌<◌, ◌≡◌, refl, sym, ap, ◌∙◌, List, [], ◌∷◌, ◌++◌, Option, none, some, length,
  length-append, take, Bool, true, false, Bool-cases, inl, inr, ◌⊎◌, subst, take-append, All, ◌==◌,
  ◌||◌, if◌then◌else◌, arith,
}

abbrev pub is_slash : ℕ → Bool
is_slash c = (c == 92) || (c == 47)

-- `dir.find_last_of(L"\\/")`
pub find_last_slash : List ℕ → Option ℕ
find_last_slash [] = none
find_last_slash (c ∷ cs) = elim (find_last_slash cs) [
  | some i ↦ some (suc i)
  | none ↦ if is_slash c then some 0 else none
]

-- `\SoapySDR\modules0.8`
abbrev pub modules_suffix : List ℕ
modules_suffix =
    92 ∷ 83 ∷ 111 ∷ 97 ∷ 112 ∷ 121 ∷ 83 ∷ 68 ∷ 82 ∷ 92 ∷ 109 ∷ 111 ∷ 100 ∷ 117 ∷ 108 ∷ 101 ∷ 115
    ∷ 48 ∷ 46 ∷ 56 ∷ []

abbrev pub max_path : ℕ
max_path = 260

-- `SOAPY_SDR_PLUGIN_PATH` in the two environments.
pub record Environment : Type 0 where
  pub process : Option (List ℕ)
  pub library : Option (List ℕ)

-- The directory of the modules beside the program.
abbrev pub modules_beside : List ℕ → Option ℕ → Option (List ℕ)
modules_beside exe_path none = none
modules_beside exe_path (some slash) = some (take slash exe_path ++ modules_suffix)

abbrev pub set_if_there : (List ℕ → Bool) → Option (List ℕ) → Environment → Environment
set_if_there exists none env = env
set_if_there exists (some modules) env =
    if exists modules then record { process = some modules; library = some modules } else env

abbrev pub is_set : Option (List ℕ) → Bool
is_set none = false
is_set (some []) = false
is_set (some (c ∷ cs)) = true

-- The function behind the test of the variable.
abbrev pub point_at_modules : List ℕ → (List ℕ → Bool) → Environment → Environment
point_at_modules exe_path exists env =
    if (length exe_path == 0) || (length exe_path == max_path)
    then env
    else set_if_there exists (modules_beside exe_path (find_last_slash exe_path)) env

-- `ensureSoapyPluginPath`, with what `GetModuleFileNameW` gives, of so many characters, and whether a path
-- has attributes.
pub ensure_soapy_plugin_path : List ℕ → (List ℕ → Bool) → Environment → Environment
ensure_soapy_plugin_path exe_path exists env =
    if is_set env.library then env else point_at_modules exe_path exists env

no_slash : (name : List ℕ) → All (λ c. is_slash c ≡ false) name → find_last_slash name ≡ none
unfolding find_last_slash
no_slash [] h = refl
no_slash (c ∷ cs) (here, later) = rw (no_slash cs later, here) refl

find_last_slash-append :
    (dir : List ℕ) (c : ℕ) (name : List ℕ)
    → is_slash c ≡ true
    → All (λ c. is_slash c ≡ false) name
    → find_last_slash (dir ++ c ∷ name) ≡ some (length dir)
unfolding find_last_slash
find_last_slash-append [] c name h k = rw (no_slash name k, h) refl
find_last_slash-append (d ∷ dir) c name h k = rw (find_last_slash-append dir c name h k) refl

-- Without the variable, or with an empty one, a program in a directory that holds the modules points both
-- environments at them: whatever the directory is, with a path shorter than the system's bound.
pub ensure-modules :
    (dir : List ℕ) (c : ℕ) (name : List ℕ) (exists : List ℕ → Bool) (env : Environment)
    → is_slash c ≡ true
    → All (λ c. is_slash c ≡ false) name
    → length dir + 1 + length name < max_path
    → is_set env.library ≡ false
    → exists (dir ++ modules_suffix) ≡ true
    → ensure_soapy_plugin_path (dir ++ c ∷ name) exists env
      ≡ record { process = some (dir ++ modules_suffix); library = some (dir ++ modules_suffix) }
unfolding ensure_soapy_plugin_path
ensure-modules dir c name exists env h k short unset there =
    let exe_path = dir ++ c ∷ name in
    let sized = length-append dir (c ∷ name) in
    let bound : ((length exe_path == 0) || (length exe_path == max_path)) ≡ false =
      within (length exe_path) (omega (arith, sized)) (omega (arith, sized, short)) in
    ap (λ b. if b then env else point_at_modules exe_path exists env) unset
    ∙ ap
        (λ b.
          if b
          then env
          else set_if_there exists (modules_beside exe_path (find_last_slash exe_path)) env)
        bound
    ∙ ap (λ i. set_if_there exists (modules_beside exe_path i) env)
        (find_last_slash-append dir c name h k)
    ∙ ap (λ d. set_if_there exists (some (d ++ modules_suffix)) env)
        (take-append (length dir) dir (c ∷ name) refl)
    ∙ ap
        (λ b.
          if b
          then record {
            process = some (dir ++ modules_suffix);
            library = some (dir ++ modules_suffix);
          }
          else env)
        there
  where
    within : (n : ℕ) → 0 < n → n < max_path → ((n == 0) || (n == max_path)) ≡ false
    within n low high = ground arith

set_with_suffix : (dir : List ℕ) → is_set (some (dir ++ modules_suffix)) ≡ true
set_with_suffix [] = refl
set_with_suffix (c ∷ dir) = refl

-- The variable is left as it is, or it is set.
set_if_there_cases :
    (exe_path : List ℕ) (slash : Option ℕ) (exists : List ℕ → Bool) (env : Environment)
    → let after = set_if_there exists (modules_beside exe_path slash) env in
      (after ≡ env) ⊎ (is_set after.library ≡ true)
set_if_there_cases exe_path none exists env = inl refl
set_if_there_cases exe_path (some slash) exists env =
    let modules = take slash exe_path ++ modules_suffix in
    elim (Bool-cases (exists modules)) [
      | inl e ↦ inr (
          ap
            (λ b.
              is_set
                (if b
                  then record { process = some modules; library = some modules }
                  else env).library)
            e
          ∙ set_with_suffix (take slash exe_path))
      | inr e ↦
          inl (
            ap (λ b. if b then record { process = some modules; library = some modules } else env)
              e)
    ]

point_at_modules_cases :
    (exe_path : List ℕ) (exists : List ℕ → Bool) (env : Environment)
    → let after = point_at_modules exe_path exists env in
      (after ≡ env) ⊎ (is_set after.library ≡ true)
point_at_modules_cases exe_path exists env =
    let set = set_if_there exists (modules_beside exe_path (find_last_slash exe_path)) env in
    elim (Bool-cases ((length exe_path == 0) || (length exe_path == max_path))) [
      | inl e ↦ inl (ap (λ b. if b then env else set) e)
      | inr e ↦
          subst (λ (after : Environment). (after ≡ env) ⊎ (is_set after.library ≡ true))
            (sym (ap (λ b. if b then env else set) e))
            (set_if_there_cases exe_path (find_last_slash exe_path) exists env)
    ]

-- A second call changes nothing.
pub ensure_twice :
    (exe_path : List ℕ) (exists : List ℕ → Bool) (env : Environment)
    → let once = ensure_soapy_plugin_path exe_path exists env in
      ensure_soapy_plugin_path exe_path exists once ≡ once
unfolding ensure_soapy_plugin_path
ensure_twice exe_path exists env =
    let after = point_at_modules exe_path exists env in
    let f : Environment → Environment =
      λ e. if is_set e.library then e else point_at_modules exe_path exists e in
    let kept : (e : Environment) → is_set e.library ≡ true → f e ≡ e =
      λ e h. ap (λ b. if b then e else point_at_modules exe_path exists e) h in
    elim (Bool-cases (is_set env.library)) [
      | inl e ↦ ap f (kept env e)
      | inr e ↦
          let one : f env ≡ after = ap (λ b. if b then env else after) e in
          elim (point_at_modules_cases exe_path exists env) [
            | inl same ↦ ap f (one ∙ same)
            | inr set ↦ ap f one ∙ kept after set ∙ sym one
          ]
    ]
