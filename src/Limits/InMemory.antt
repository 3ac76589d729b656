-- ===== src/Limits/InMemory.antt =====
-- Counters kept in a list: the laws of the interface can be met.
use tokenpanel.Prelude.{refl, List, [], ◌∷◌, ◌++◌, if◌then◌else◌}
use tokenpanel.Mongo.{update_first, any}
use tokenpanel.Limits.Counters.{Counter, CounterStore, IsCounterStore, filter}

abbrev pub counters_in_memory : CounterStore
counters_in_memory = record {
  Db = List Counter;
  rows = λ db. db;
  find = filter;
  update_one = update_first;
  upsert_one = λ p f a db. if any p db then update_first p f db else db ++ a ∷ [];
}

abbrev pub counters_in_memory-laws : IsCounterStore counters_in_memory
counters_in_memory-laws = record {
  find_lem = λ p db. refl;
  rows-update = λ p f db. refl;
  rows-upsert = λ p f a db. refl;
}
