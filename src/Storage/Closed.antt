-- ===== src/Storage/Closed.antt =====
-- A storage that refuses every call, as LocalStorage does once it is closed.
use koala_v.Prelude.{ℤ, pos, Text, List, [], true, false, some, ◌≡◌, arith}
use koala_v.Storage.{Storage, storage_closed}
use koala_v.Storage.Local.{LocalStorage, Ristretto}
use koala_v.Storage.Local.Counters.{get_int, set_int, incr, incr_by, incr_with_ttl}
use koala_v.Storage.Local.Lists.{l_push, l_len, l_index, l_trim, l_range}
use koala_v.Storage.Local.Strings.{get, set, delete, exists, expire}
use koala_v.Storage.Local.Instance.{local_storage, ping, close}

-- Every call but Close returns ErrStorageClosed with the zero value, and changes nothing.
pub record Refuses {S : Type 0} (st : Storage S) (s : S) : Type 0 where
  pub get : (now : ℤ) (key : Text) → st.get now key s ≡ ([], some storage_closed, s)
  pub set : (now : ℤ) (key v : Text) (ttl : ℤ) → st.set now key v ttl s ≡ (some storage_closed, s)
  pub delete : (now : ℤ) (key : Text) → st.delete now key s ≡ (some storage_closed, s)
  pub exists : (now : ℤ) (key : Text) → st.exists now key s ≡ (false, some storage_closed, s)
  pub expire : (now : ℤ) (key : Text) (ttl : ℤ) → st.expire now key ttl s ≡ (some storage_closed, s)
  pub get_int : (now : ℤ) (key : Text) → st.get_int now key s ≡ (pos 0, some storage_closed, s)
  pub set_int :
      (now : ℤ) (key : Text) (v ttl : ℤ) → st.set_int now key v ttl s ≡ (some storage_closed, s)
  pub incr : (now : ℤ) (key : Text) → st.incr now key s ≡ (pos 0, some storage_closed, s)
  pub incr_by :
      (now : ℤ) (key : Text) (d : ℤ) → st.incr_by now key d s ≡ (pos 0, some storage_closed, s)
  pub incr_with_ttl :
      (now : ℤ) (key : Text) (ttl : ℤ)
      → st.incr_with_ttl now key ttl s ≡ (pos 0, some storage_closed, s)
  pub l_push :
      (now : ℤ) (key : Text) (vs : List ℤ) → st.l_push now key vs s ≡ (some storage_closed, s)
  pub l_len : (now : ℤ) (key : Text) → st.l_len now key s ≡ (pos 0, some storage_closed, s)
  pub l_index :
      (now : ℤ) (key : Text) (i : ℤ) → st.l_index now key i s ≡ (pos 0, some storage_closed, s)
  pub l_trim : (now : ℤ) (key : Text) (a b : ℤ) → st.l_trim now key a b s ≡ (some storage_closed, s)
  pub l_range :
      (now : ℤ) (key : Text) (a b : ℤ) → st.l_range now key a b s ≡ ([], some storage_closed, s)
  pub ping : (now : ℤ) → st.ping now s ≡ (some storage_closed, s)

module _ {C : Type 0} (cache : Ristretto C) where
  closed-Refuses : (s : LocalStorage C) → s.closed ≡ true → Refuses (local_storage cache) s
  unfolding get set delete exists expire get_int set_int incr incr_by incr_with_ttl l_push l_len
      l_index l_trim l_range ping
  closed-Refuses s c = record {
    get = λ now key. ground (arith, c);
    set = λ now key v ttl. ground (arith, c);
    delete = λ now key. ground (arith, c);
    exists = λ now key. ground (arith, c);
    expire = λ now key ttl. ground (arith, c);
    get_int = λ now key. ground (arith, c);
    set_int = λ now key v ttl. ground (arith, c);
    incr = λ now key. ground (arith, c);
    incr_by = λ now key d. ground (arith, c);
    incr_with_ttl = λ now key ttl. ground (arith, c);
    l_push = λ now key vs. ground (arith, c);
    l_len = λ now key. ground (arith, c);
    l_index = λ now key i. ground (arith, c);
    l_trim = λ now key a b. ground (arith, c);
    l_range = λ now key a b. ground (arith, c);
    ping = λ now. ground (arith, c);
  }

  close-closed : (s : LocalStorage C) → (close cache s).1.closed ≡ true
  unfolding close
  close-closed s = ground arith

  -- LocalStorage after Close.
  pub close-Refuses : (s : LocalStorage C) → Refuses (local_storage cache) (close cache s).1
  close-Refuses s = closed-Refuses (close cache s).1 (close-closed s)
