-- ===== src/Worker/Legend.antt =====
-- The legend that core 0 prints at the end of `run_worker` in src/ccbench.c: what the results of each
-- core are results of. The texts are those of the code.
pub mod Share
use Prim.Native.String.{String}
use altered_ccbench_fork.Common.{
  ℕ, ◌+◌, ◌*◌, ◌/◌, Bool, List, [], ◌∷◌, ◌++◌, if◌then◌else◌, ltb, leb, ◌==◌,
}
use altered_ccbench_fork.Worker.Event

-- A text, or a text with the number that `printf` puts into it.
pub data Line : Type 0 where
  says : String → Line
  shows : String → ℕ → String → Line

-- `test_ao_success` as a number, and `succ` in the cases that have it: the share of the operations
-- of core 1 that succeed, in percent.
abbrev pub as_number : Bool → ℕ
as_number b = if b then 1 else 0

unfoldable pub succ : Event.Event → Bool → ℕ
succ Event.cas_on_modified test_ao_success = 50 + as_number test_ao_success * 50
succ _ test_ao_success = as_number test_ao_success * 100

module _ (test_flush test_ao_success : Bool) (test_cores test_mem_size : ℕ) where
  -- `switch (test_test)`
  unfoldable pub legend : Event.Event → List Line
  unfolding succ
  legend Event.store_on_modified =
      (if test_flush
        then says " ** Results from Core 0 : store on invalid"
          ∷ says " ** Results from Core 1 : store on modified"
          ∷ []
        else says " ** Results from Core 0 and 1 : store on modified" ∷ [])
  legend Event.store_on_modified_no_sync =
      (if test_flush
        then says " ** Results do not make sense" ∷ []
        else says
            " ** Results from Core 0 and 1 : store on modified while another core is also trying to do the same"
          ∷ [])
  legend Event.store_on_exclusive =
      (if test_flush
        then says " ** Results from Core 0 : load from invalid" ∷ []
        else says " ** Results from Core 0 : load from invalid, BUT could have prefetching" ∷ [])
      ++ (says " ** Results from Core 1 : store on exclusive" ∷ [])
  legend Event.store_on_shared =
      (says " ** Results from Core 0 & 2: load from modified and exclusive or shared, respectively"
        ∷ says " ** Results from Core 1 : store on shared"
        ∷ [])
      ++ (if ltb test_cores 3
          then says " ** Need >=3 processes to achieve STORE_ON_SHARED" ∷ []
          else [])
  legend Event.store_on_owned_mine =
      (says
          " ** Results from Core 0 : load from modified (makes it owned, if owned state is supported)"
        ∷ [])
      ++ (if test_flush
          then says " ** Results 1 from Core 1 : store to invalid" ∷ []
          else says " ** Results 1 from Core 1 : store to modified mine" ∷ [])
      ++ (says
            " ** Results 2 from Core 1 : store to owned mine (if owned is supported, else exclusive)"
          ∷ [])
  legend Event.store_on_owned =
      (if test_flush
        then says " ** Results from Core 0 : store to modified" ∷ []
        else says " ** Results from Core 0 : store to invalid" ∷ [])
      ++ (says
            " ** Results 1 from Core 1 : load from modified (makes it owned, if owned state is supported)"
          ∷ says
              " ** Results 2 from Core 1 : store to owned (if owned is supported, else exclusive mine)"
          ∷ [])
  legend Event.load_from_modified =
      (if test_flush
        then says " ** Results from Core 0 : store to invalid" ∷ []
        else says
            " ** Results from Core 0 : store to owned mine (if owned state supported, else exclusive)"
          ∷ [])
      ++ (says
            " ** Results from Core 1 : load from modified (makes it owned, if owned state supported)"
          ∷ [])
  legend Event.load_from_exclusive =
      (if test_flush
        then says " ** Results from Core 0 : load from invalid" ∷ []
        else says " ** Results from Core 0 : load from invalid, BUT could have prefetching" ∷ [])
      ++ (says " ** Results from Core 1 : load from exclusive" ∷ [])
  legend Event.store_on_invalid =
      says " ** Results from Core 0 : store on invalid"
      ∷ says " ** Results from Core 1 : cache line flush"
      ∷ []
  legend Event.load_from_invalid =
      says " ** Results from Core 0 : load from invalid"
      ∷ says " ** Results from Core 1 : cache line flush"
      ∷ []
  legend Event.load_from_shared =
      (if test_flush
        then says " ** Results from Core 0 : load from invalid" ∷ []
        else says " ** Results from Core 0 : load from invalid, BUT could have prefetching" ∷ [])
      ++ (says " ** Results from Core 1 : load from exclusive" ∷ [])
      ++ (if leb 3 test_cores
          then says " ** Results from Core 2 : load from shared" ∷ []
          else says " ** Need >=3 processes to achieve LOAD_FROM_SHARED" ∷ [])
  legend Event.load_from_owned =
      (if test_flush
        then says " ** Results from Core 0 : store to invalid" ∷ []
        else says
            " ** Results from Core 0 : store to owned mine (if owned is supported, else shared)"
          ∷ [])
      ++ (says " ** Results from Core 1 : load from modified" ∷ [])
      ++ (if test_cores == 3
          then says " ** Results from Core 2 : load from owned" ∷ []
          else says " ** Need 3 processes to achieve LOAD_FROM_OWNED" ∷ [])
  legend Event.cas =
      says " ** Results from Core 0 : CAS successfull"
      ∷ says " ** Results from Core 1 : CAS unsuccessfull"
      ∷ []
  legend Event.fai = says " ** Results from Cores 0 & 1: FAI" ∷ []
  legend Event.tas =
      says " ** Results from Core 0 : TAS successfull"
      ∷ says " ** Results from Core 1 : TAS unsuccessfull"
      ∷ []
  legend Event.swap = says " ** Results from Cores 0 & 1: SWAP" ∷ []
  legend Event.cas_on_modified =
      says " ** Results from Core 0 : store on modified"
      ∷ shows " ** Results from Core 1 : CAS on modified ("
          (succ Event.cas_on_modified test_ao_success) "% successfull)"
      ∷ []
  legend Event.fai_on_modified =
      says " ** Results from Core 0 : store on modified"
      ∷ says " ** Results from Core 1 : FAI on modified"
      ∷ []
  legend Event.tas_on_modified =
      says " ** Results from Core 0 : store on modified"
      ∷ shows " ** Results from Core 1 : TAS on modified ("
          (succ Event.tas_on_modified test_ao_success) "% successfull)"
      ∷ []
  legend Event.swap_on_modified =
      says " ** Results from Core 0 : store on modified"
      ∷ says " ** Results from Core 1 : SWAP on modified"
      ∷ []
  legend Event.cas_on_shared =
      (says " ** Results from Core 0 : load from modified"
        ∷ says " ** Results from Core 1 : CAS on shared (100% successfull)"
        ∷ says " ** Results from Core 2 : load from exlusive or shared"
        ∷ [])
      ++ (if ltb test_cores 3
          then says " ** Need >=3 processes to achieve CAS_ON_SHARED" ∷ []
          else [])
  legend Event.fai_on_shared =
      (says " ** Results from Core 0 : load from modified"
        ∷ says " ** Results from Core 1 : FAI on shared"
        ∷ says " ** Results from Core 2 : load from exlusive or shared"
        ∷ [])
      ++ (if ltb test_cores 3
          then says " ** Need >=3 processes to achieve FAI_ON_SHARED" ∷ []
          else [])
  legend Event.tas_on_shared =
      (says " ** Results from Core 0 : load from L1"
        ∷ shows " ** Results from Core 1 : TAS on shared ("
            (succ Event.tas_on_shared test_ao_success) "% successfull)"
        ∷ says " ** Results from Core 2 : load from exlusive or shared"
        ∷ [])
      ++ (if ltb test_cores 3
          then says " ** Need >=3 processes to achieve TAS_ON_SHARED" ∷ []
          else [])
  legend Event.swap_on_shared =
      (says " ** Results from Core 0 : load from modified"
        ∷ says " ** Results from Core 1 : SWAP on shared"
        ∷ says " ** Results from Core 2 : load from exlusive or shared"
        ∷ [])
      ++ (if ltb test_cores 3
          then says " ** Need >=3 processes to achieve SWAP_ON_SHARED" ∷ []
          else [])
  legend Event.cas_concurrent = shows " ** Results from " test_cores " cores: CAS concurrent" ∷ []
  legend Event.fai_on_invalid =
      says " ** Results from Core 0 : FAI on invalid"
      ∷ says " ** Results from Core 1 : cache line flush"
      ∷ []
  legend Event.load_from_l1 = says " ** Results from Core 0: load from L1" ∷ []
  legend Event.load_from_mem_size =
      shows " ** Results from Corees 0 & 1 & 2: load from random " (test_mem_size / 1024) " KiB"
      ∷ []
  legend Event.lfence = says " ** Results from Cores 0 & 1: load fence" ∷ []
  legend Event.sfence = says " ** Results from Cores 0 & 1: store fence" ∷ []
  legend Event.mfence = says " ** Results from Cores 0 & 1: full fence" ∷ []
  legend Event.profiler =
      says " ** Results from Cores 0 & 1: empty profiler region (start_prof - empty - stop_prof"
      ∷ []
  legend _ = []
