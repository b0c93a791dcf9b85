-- ===== src/CommandLine/Simulation.antt =====
-- Two ways to keep the choice of cores that agree at each option agree over the whole command line.
use altered_ccbench_fork.Common.{
  ℕ, ◌^◌, ◌<◌, ◌≡◌, refl, subst, arith, List, [], ◌∷◌, ◌==◌, length, All, Text,
}
use altered_ccbench_fork.CommandLine.Result.{
  Result, ◌>>=◌, Related, >>=-Related, >>=-same, if-Related,
}
use altered_ccbench_fork.CommandLine.CoreList.{parse_core_list}
use altered_ccbench_fork.CommandLine.Accepts.{parse_core_list-length}
use altered_ccbench_fork.CommandLine.Size.{parse_size}
use altered_ccbench_fork.CommandLine.TestOption.{parse_test_option}
use altered_ccbench_fork.CommandLine.Cores.{parse_cores}
use altered_ccbench_fork.CommandLine.Options.{
  with_cores, Selection, Settings, set_option, set_options,
}

pub record Simulates {ℓ κ} {A : Type ℓ} {B : Type κ} (R : A → B → Type 0) (s : Selection A)
    (s' : Selection B) : Type (ℓ ⊔ κ) where
  pub count : (n : ℕ) (a : A) (b : B) → R a b → Related R (s.select_count n a) (s'.select_count n b)
  pub list :
      (l : List ℕ) (a : A) (b : B)
      → length l < 2 ^ 32
      → R a b
      → Related R (s.select_list l a) (s'.select_list l b)

module _ {ℓ} {A : Type ℓ} where
  abbrev pub put_cores {κ} : {B : Type κ} → Settings B → A → Settings A
  put_cores s a = record {
    cores = a;
    test_test = s.test_test;
    test_reps = s.test_reps;
    test_core_others = s.test_core_others;
    test_flush = s.test_flush;
    test_stride = s.test_stride;
    test_fence = s.test_fence;
    test_mem_size = s.test_mem_size;
    test_ao_success = s.test_ao_success;
    test_verbose = s.test_verbose;
    test_print = s.test_print;
  }

-- All but the cores.
abbrev pub others {ℓ} : {A : Type ℓ} → Settings A → Settings (Unit {0})
others s = put_cores s tt

module _ {ℓ κ} {A : Type ℓ} {B : Type κ} (R : A → B → Type 0) (sel : Selection A)
    (sel' : Selection B) (sim : Simulates R sel sel') where
  abbrev pub SettingsAgree : Settings A → Settings B → Type 0
  SettingsAgree s s' = R s.cores s'.cores × (others s ≡ others s')

  with_cores-agrees :
      (s : Settings (Unit {0})) (a : A) (b : B) (m : Result A) (m' : Result B)
      → Related R m m'
      → Related SettingsAgree (with_cores (put_cores s a) m) (with_cores (put_cores s b) m')
  with_cores-agrees s a b m m' h = >>=-Related SettingsAgree R m m' _ _ h (λ a' b' r. (r, refl))

  count-agrees :
      (optarg : Text) (a : A) (b : B)
      → R a b
      → Related R
          (parse_cores optarg >>= λ n. sel.select_count n a)
          (parse_cores optarg >>= λ n. sel'.select_count n b)
  count-agrees optarg a b h = >>=-same R (parse_cores optarg) _ _ (λ n e. sim.count n a b h)

  list-agrees :
      (optarg : Text) (a : A) (b : B)
      → length optarg < 2 ^ 32
      → R a b
      → Related R
          (parse_core_list optarg >>= λ l. sel.select_list l a)
          (parse_core_list optarg >>= λ l. sel'.select_list l b)
  list-agrees optarg a b small h =
      >>=-same R (parse_core_list optarg) _ _
        (λ l e. sim.list l a b (omega (arith, parse_core_list-length optarg l e, small)) h)

  set_option-agrees :
      (c : ℕ) (optarg : Text) (s : Settings (Unit {0})) (a : A) (b : B)
      → length optarg < 2 ^ 32
      → R a b
      → Related SettingsAgree
          (set_option sel c optarg (put_cores s a))
          (set_option sel' c optarg (put_cores s b))
  unfolding set_option
  set_option-agrees c optarg s a b small h =
      let next = if-Related SettingsAgree in
      let cores =
        with_cores-agrees s a b (parse_cores optarg >>= λ n. sel.select_count n a)
          (parse_cores optarg >>= λ n. sel'.select_count n b) (count-agrees optarg a b h) in
      let list =
        with_cores-agrees s a b (parse_core_list optarg >>= λ l. sel.select_list l a)
          (parse_core_list optarg >>= λ l. sel'.select_list l b) (list-agrees optarg a b small h) in
      let test = >>=-same SettingsAgree (parse_test_option optarg) _ _ (λ e q. (h, refl)) in
      let size = >>=-same SettingsAgree (parse_size optarg) _ _ (λ e q. (h, refl)) in
      next (c == 0) _ _ _ _ (h, refl)
        (next (c == b'h') _ _ _ _ (refl, refl)
          (next (c == b'c') _ _ _ _ cores (
            next (c == b'r') _ _ _ _ (h, refl)
              (next (c == b't') _ _ _ _ test (
                next (c == b'x') _ _ _ _ list (
                  next (c == b'o') _ _ _ _ (h, refl)
                    (next (c == b'f') _ _ _ _ (h, refl)
                      (next (c == b's') _ _ _ _ (h, refl)
                        (next (c == b'e') _ _ _ _ (h, refl)
                          (next (c == b'm') _ _ _ _ size (
                            next (c == b'u') _ _ _ _ (h, refl)
                              (next (c == b'v') _ _ _ _ (h, refl)
                                (next (c == b'p') _ _ _ _ (h, refl)
                                  (next (c == b'?') _ _ _ _ (refl, refl) (refl, refl)))))))))))))))

  pub set_options-agrees :
      (given : List (ℕ × Text)) (s : Settings A) (s' : Settings B)
      → All (λ o. length o.1 < 2 ^ 32) given
      → SettingsAgree s s'
      → Related SettingsAgree (set_options sel given s) (set_options sel' given s')
  unfolding set_options
  set_options-agrees [] s s' small h = h
  set_options-agrees ((c, optarg) ∷ given) s s' small h =
      let (cores, same) = h in
      >>=-Related SettingsAgree SettingsAgree _ _ _ _
        (subst
          (λ x.
            Related SettingsAgree (set_option sel c optarg s)
              (set_option sel' c optarg (put_cores x s'.cores)))
          same (set_option-agrees c optarg (others s) s.cores s'.cores small.0 cores))
        (λ a b r. set_options-agrees given a b small.1 r)
