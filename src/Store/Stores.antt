-- ===== src/Store/Stores.antt =====
-- The stores as VCookieStores.
use elevator.Base.{done}
use elevator.Store.{VCookieStore}
use elevator.Memory
use elevator.Nop

abbrev pub in_memory : VCookieStore
in_memory = record {
  State = Memory.StoreMap;
  save_vcookie = Memory.save_vcookie;
  load_vcookie = Memory.load_vcookie;
}

abbrev pub nop : VCookieStore
nop = record {
  State = Unit {0};
  save_vcookie = λ s c. done (s, Nop.save_vcookie c);
  load_vcookie = λ s c. Nop.load_vcookie c;
}
