-- ===== src/Worker/Event.antt =====
-- `moesi_type_t` of include/ccbench.h: the tests.
pub data Event : Type 0 where
  store_on_modified : Event
  store_on_modified_no_sync : Event
  store_on_exclusive : Event
  store_on_shared : Event
  store_on_owned_mine : Event
  store_on_owned : Event
  store_on_invalid : Event
  load_from_modified : Event
  load_from_exclusive : Event
  load_from_shared : Event
  load_from_owned : Event
  load_from_invalid : Event
  cas : Event
  fai : Event
  tas : Event
  swap : Event
  cas_on_modified : Event
  fai_on_modified : Event
  tas_on_modified : Event
  swap_on_modified : Event
  cas_on_shared : Event
  fai_on_shared : Event
  tas_on_shared : Event
  swap_on_shared : Event
  cas_concurrent : Event
  fai_on_invalid : Event
  load_from_l1 : Event
  load_from_mem_size : Event
  lfence : Event
  sfence : Event
  mfence : Event
  profiler : Event
  pause : Event
  nop : Event
