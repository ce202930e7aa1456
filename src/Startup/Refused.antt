-- ===== src/Startup/Refused.antt =====
-- A storage that refuses every call, through the interface over two types of storage.
use koala_v.Prelude.{◌⊎◌, inl, Option, ap}
use koala_v.Storage.{Storage, Error}
use koala_v.Storage.Closed.{Refuses}
use koala_v.Startup.Dispatch.{either_storage}

abbrev answered : {L M A : Type 0} → A × Option Error × L → A × Option Error × (L ⊎ M)
answered (v, err, s) = (v, err, inl s)

abbrev done : {L M : Type 0} → Option Error × L → Option Error × (L ⊎ M)
done (err, s) = (err, inl s)

pub either-Refuses :
    {L M : Type 0} (l : Storage L) (m : Storage M) (s : L)
    → Refuses l s
    → Refuses (either_storage l m) (inl s)
either-Refuses l m s h = record {
  get = λ now key. ap answered (h.get now key);
  set = λ now key v ttl. ap done (h.set now key v ttl);
  delete = λ now key. ap done (h.delete now key);
  exists = λ now key. ap answered (h.exists now key);
  expire = λ now key ttl. ap done (h.expire now key ttl);
  get_int = λ now key. ap answered (h.get_int now key);
  set_int = λ now key v ttl. ap done (h.set_int now key v ttl);
  incr = λ now key. ap answered (h.incr now key);
  incr_by = λ now key d. ap answered (h.incr_by now key d);
  incr_with_ttl = λ now key ttl. ap answered (h.incr_with_ttl now key ttl);
  l_push = λ now key vs. ap done (h.l_push now key vs);
  l_len = λ now key. ap answered (h.l_len now key);
  l_index = λ now key i. ap answered (h.l_index now key i);
  l_trim = λ now key a b. ap done (h.l_trim now key a b);
  l_range = λ now key a b. ap answered (h.l_range now key a b);
  ping = λ now. ap done (h.ping now);
}
