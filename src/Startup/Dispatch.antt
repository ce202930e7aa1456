-- ===== src/Startup/Dispatch.antt =====
-- The interface Storage over the two types of storage that initStorage may return: a call goes to the
-- methods of the type that is there.
use koala_v.Prelude.{Text, ◌⊎◌, inl, inr}
use koala_v.Storage.{Storage, Call, Action}

module _ {L M : Type 0} where
  abbrev either : {A : Type 0} → Call L A → Call M A → Call (L ⊎ M) A
  either fl fm (inl s) = let (v, err, s₁) = fl s in (v, err, inl s₁)
  either fl fm (inr s) = let (v, err, s₁) = fm s in (v, err, inr s₁)

  abbrev either_action : Action L → Action M → Action (L ⊎ M)
  either_action fl fm (inl s) = let (err, s₁) = fl s in (err, inl s₁)
  either_action fl fm (inr s) = let (err, s₁) = fm s in (err, inr s₁)

  abbrev either_name : (L → Text) → (M → Text) → L ⊎ M → Text
  either_name fl fm (inl s) = fl s
  either_name fl fm (inr s) = fm s

abbrev pub either_storage : {L M : Type 0} → Storage L → Storage M → Storage (L ⊎ M)
either_storage l m = record {
  get = λ now key. either (l.get now key) (m.get now key);
  set = λ now key value ttl. either_action (l.set now key value ttl) (m.set now key value ttl);
  delete = λ now key. either_action (l.delete now key) (m.delete now key);
  exists = λ now key. either (l.exists now key) (m.exists now key);
  expire = λ now key ttl. either_action (l.expire now key ttl) (m.expire now key ttl);
  get_int = λ now key. either (l.get_int now key) (m.get_int now key);
  set_int = λ now key value ttl.
      either_action (l.set_int now key value ttl) (m.set_int now key value ttl);
  incr = λ now key. either (l.incr now key) (m.incr now key);
  incr_by = λ now key delta. either (l.incr_by now key delta) (m.incr_by now key delta);
  incr_with_ttl = λ now key ttl. either (l.incr_with_ttl now key ttl) (m.incr_with_ttl now key ttl);
  l_push = λ now key values. either_action (l.l_push now key values) (m.l_push now key values);
  l_len = λ now key. either (l.l_len now key) (m.l_len now key);
  l_index = λ now key index. either (l.l_index now key index) (m.l_index now key index);
  l_trim = λ now key start stop.
      either_action (l.l_trim now key start stop) (m.l_trim now key start stop);
  l_range =
      λ now key start stop. either (l.l_range now key start stop) (m.l_range now key start stop);
  ping = λ now. either_action (l.ping now) (m.ping now);
  close = either_action l.close m.close;
  type_name = either_name l.type_name m.type_name;
}
