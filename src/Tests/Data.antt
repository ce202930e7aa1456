-- ===== src/Tests/Data.antt =====
-- A cache, rules and requests.
use koala_v.Prelude.{pos, Text, bytes, Table, lookup, insert, delete, [], ◌∷◌, true}
use koala_v.Storage.{Storage}
use koala_v.Storage.Local.{Ristretto, LocalStorage, new}
use koala_v.Storage.Local.Instance.{local_storage}
use koala_v.Storage.Laws.{CounterLaws, ListLaws}
use koala_v.Storage.Local.Counters.Live.{local_counter_laws}
use koala_v.Storage.Local.Lists.Reads.{local_list_laws}
use koala_v.Algorithm.{count}
use koala_v.Algorithm.Limit.{LimitConfig}
use koala_v.Rules.{RulesConfig}
use koala_v.Dict.{DictManager}
use koala_v.Engine.Message.{Request}
use koala_v.Engine.Matching.{Rule, RuleSet, RuleType, RulePhase}

-- A cache that drops nothing and expires nothing.
abbrev pub cache : Ristretto (Table Text)
cache = record {
  get = λ key c. (lookup key c, c);
  set = λ key value cost c. insert key value c;
  set_with_ttl = λ key value cost ttl c. insert key value c;
  del = delete;
  wait = λ c. c;
  close = λ c. c;
}

abbrev pub State : Type 0
State = LocalStorage (Table Text)

abbrev pub store : Storage State
store = local_storage cache

abbrev pub counter_laws : CounterLaws store
counter_laws = local_counter_laws cache

abbrev pub list_laws : ListLaws store
list_laws = local_list_laws cache

abbrev pub empty : State
empty = new []

abbrev pub closed : State
closed = record empty { closed = true }

-- Two requests in a minute, and a threshold of one.
abbrev pub two_a_minute : LimitConfig
two_a_minute = record { time = pos 60000000000; count = pos 2; base = pos 1 }

abbrev pub login : Request
login = record { act = bytes "login"; uid = bytes "7"; ip = bytes "10.0.0.1"; did = []; ext = [] }

abbrev pub any_login : Rule
any_login = record {
  name = bytes "login";
  typ = RuleType.rate;
  phase = RulePhase.business;
  match = (bytes "act", bytes "login") ∷ (bytes "uid", bytes "+") ∷ [];
  matchers = [];
  limit = two_a_minute;
  algorithm = count;
  result = record { code = pos 429; message = bytes "slow down"; auth_type = pos 0 };
}

abbrev pub rules : RuleSet
rules = record {
  whitelist = [];
  blacklist = [];
  business = any_login ∷ [];
  post = [];
  advanced = [];
  default_rules = [];
}

abbrev pub config : RulesConfig
config = record {
  meta = record { version = bytes "2"; description = [] };
  dicts = [];
  results = (bytes "deny", record { code = pos 403; message = bytes "no"; auth_type = pos 1 }) ∷ [];
  access = record {
    whitelist = [];
    blacklist =
        record {
          name = bytes "black";
          match = (bytes "ip", bytes "10.0.*.*") ∷ [];
          result = bytes "deny";
        }
        ∷ [];
  };
  rules = record {
    business =
        record {
          name = bytes "login";
          typ = bytes "freq";
          match = (bytes "act", bytes "login") ∷ [];
          limit = record { time = pos 60000000000; count = pos 2; base = pos 0 };
          result = bytes "deny";
          desc = [];
        }
        ∷ [];
    post = [];
    advanced = [];
    default_rules = [];
  };
}

abbrev pub vip : DictManager
vip = record { dicts = (bytes "vip", (bytes "7", tt) ∷ []) ∷ []; paths = [] }
