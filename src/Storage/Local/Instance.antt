-- ===== src/Storage/Local/Instance.antt =====
-- LocalStorage as a `Storage`, with Ping, Close and Type.
use koala_v.Prelude.{bytes, true, none, some, if◌then◌else◌}
use koala_v.Storage.{Storage, Action, storage_closed}
use koala_v.Storage.Local.{LocalStorage, Ristretto}
use koala_v.Storage.Local.Counters.{get_int, set_int, incr, incr_by, incr_with_ttl}
use koala_v.Storage.Local.Lists.{l_push, l_len, l_index, l_trim, l_range}
use koala_v.Storage.Local.Strings.{get, set, delete, exists, expire}

module _ {C : Type 0} where
  unfoldable pub ping : Action (LocalStorage C)
  ping s = if s.closed then (some storage_closed, s) else (none, s)

  -- The channel of the cleanup loop is closed with the state.
  unfoldable pub close : Ristretto C → Action (LocalStorage C)
  close cache s =
      if s.closed
      then (none, s)
      else (none, record s { closed = true; cache = cache.close s.cache })

abbrev pub local_storage : {C : Type 0} → Ristretto C → Storage (LocalStorage C)
local_storage cache = record {
  get = get cache;
  set = set cache;
  delete = λ now. delete cache;
  exists = exists cache;
  expire = expire cache;
  get_int = get_int;
  set_int = set_int;
  incr = incr;
  incr_by = incr_by;
  incr_with_ttl = incr_with_ttl;
  l_push = λ now. l_push;
  l_len = λ now. l_len;
  l_index = λ now. l_index;
  l_trim = λ now. l_trim;
  l_range = λ now. l_range;
  ping = λ now. ping;
  close = close cache;
  type_name = λ s. bytes "local";
}
