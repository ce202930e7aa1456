-- ===== src/Storage/Manager/Instance.antt =====
-- StorageManager as a `Storage`: each method hands its call to the failover, but Ping, Close, Type.
use koala_v.Prelude.{true, none, Text, if◌then◌else◌}
use koala_v.Storage.{Storage, Action}
use koala_v.Storage.Manager.{
  StorageManager, primary, fallback, execute, execute_action, action_on_current,
}

module _ {P F : Type 0} where
  -- The channels are closed with the state; the backends are left open.
  unfoldable pub close : Action (StorageManager P F)
  close m = if m.closed then (none, m) else (none, record m { closed = true })

  unfoldable pub current_type : Storage P → Storage F → StorageManager P F → Text
  current_type p f m = elim m.current [
    | primary ↦ p.type_name m.primary
    | fallback ↦ f.type_name m.fallback
  ]

abbrev pub manager_storage : {P F : Type 0} → Storage P → Storage F → Storage (StorageManager P F)
manager_storage p f = record {
  get = λ now key. execute (p.get now key) (f.get now key);
  set = λ now key value ttl. execute_action (p.set now key value ttl) (f.set now key value ttl);
  delete = λ now key. execute_action (p.delete now key) (f.delete now key);
  exists = λ now key. execute (p.exists now key) (f.exists now key);
  expire = λ now key ttl. execute_action (p.expire now key ttl) (f.expire now key ttl);
  get_int = λ now key. execute (p.get_int now key) (f.get_int now key);
  set_int = λ now key value ttl.
      execute_action (p.set_int now key value ttl) (f.set_int now key value ttl);
  incr = λ now key. execute (p.incr now key) (f.incr now key);
  incr_by = λ now key delta. execute (p.incr_by now key delta) (f.incr_by now key delta);
  incr_with_ttl =
      λ now key ttl. execute (p.incr_with_ttl now key ttl) (f.incr_with_ttl now key ttl);
  l_push = λ now key values. execute_action (p.l_push now key values) (f.l_push now key values);
  l_len = λ now key. execute (p.l_len now key) (f.l_len now key);
  l_index = λ now key index. execute (p.l_index now key index) (f.l_index now key index);
  l_trim = λ now key start stop.
      execute_action (p.l_trim now key start stop) (f.l_trim now key start stop);
  l_range =
      λ now key start stop. execute (p.l_range now key start stop) (f.l_range now key start stop);
  ping = λ now. action_on_current (p.ping now) (f.ping now);
  close = close;
  type_name = current_type p f;
}
