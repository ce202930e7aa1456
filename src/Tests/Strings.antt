-- ===== src/Tests/Strings.antt =====
-- The string operations of LocalStorage on a small history.
use koala_v.Prelude.{
  ℤ, pos, ◌+ℤ◌, bytes, text_eq, lookup, insert, delete, lookup-insert, lookup-delete, List, [], ◌∷◌,
  Option, some, ◌≡◌, refl, sym, ◌∙◌,
}
use koala_v.Storage.Local.{new}
use koala_v.Storage.Local.Strings.{get, set, delete as drop_entry, expire, has_expired}
use koala_v.Storage.Local.Strings.Written.{
  CacheLaws, StringCall, set_call, expire_call, delete_call, IsFresh, apply, run, remember,
}
use koala_v.Storage.Local.Strings.Fresh.{run-get}
use koala_v.Storage.Local.Strings.Agrees.{unchanged}
use koala_v.Tests.Data.{cache}

abbrev cache_laws : CacheLaws cache
cache_laws = record {
  may = lookup;
  finds = λ key v c e. e;
  after_get = λ key j c. refl;
  after_set = λ key value j cost c. lookup-insert key j value c;
  after_set_with_ttl = λ key value j cost ttl c h. lookup-insert key j value c;
  after_same = λ key value j cost ttl c h.
      lookup-insert key j value c ∙ sym (unchanged key j value (λ x. lookup x c) h);
  after_del = λ key j c. lookup-delete key j c;
  after_wait = λ j c. refl;
}

abbrev history : List (ℤ × StringCall)
history =
    (pos 5, set_call (bytes "k") (bytes "old") (pos 3))
    ∷ (pos 6, set_call (bytes "j") (bytes "gone") (pos 0))
    ∷ (pos 7, set_call (bytes "k") (bytes "v") (pos 60))
    ∷ (pos 8, delete_call (bytes "j"))
    ∷ (pos 9, expire_call (bytes "k") (pos 20))
    ∷ []

run-get_example :
    (e : Option ℤ) × (lookup (bytes "k") (run cache history (new []) []).1
      ≡ some ((get cache (pos 29) (bytes "k") (run cache history (new []) []).0).0, e))
    × (IsFresh (pos 29) e)
unfolding get set drop_entry expire has_expired lookup insert delete remember apply run text_eq ◌+ℤ◌
run-get_example = run-get cache cache_laws [] history (pos 29) (bytes "k") (λ j. refl) refl
