-- ===== src/Fsm/TopicConfig/Settings.antt =====
-- Reading a setting of a topic after one is written.
use jocko.Common.{
  ◌≡◌, refl, Bool, true, false, Option, none, some, [], ◌∷◌, Str, str_eq, eq_of_str_eq,
  if◌then◌else◌, arith, Bool-cases, Option-cases, inl, inr,
}
use jocko.Fsm.TopicConfig.{
  ConfigValue, TopicConfigEntry, TopicConfig, get, put, get_value, set_value, or_default,
}

get-put :
    (name n : Str) (e : TopicConfigEntry) (c : TopicConfig)
    → get n (put name e c) ≡ (if str_eq name n then some e else get n c)
unfolding get put
get-put name n e [] = refl
get-put name n e ((k, old) ∷ c) = elim (Bool-cases (str_eq k name)) [
  | inl same ↦ ground (arith, eq_of_str_eq k name same)
  | inr other ↦ ground (arith, get-put name n e c, eq_of_str_eq name n)
]

-- What GetValue returns of an entry whose value is `v`, and of a name that has no entry.
abbrev pub reset : Bool → Option TopicConfigEntry → ConfigValue → ConfigValue → ConfigValue
reset false found v old = old
reset true none v old = old
reset true (some e) v old = or_default v e.default

-- After SetValue of a name, GetValue of that name returns the new value, or the default of the entry
-- when the new value is nil; it returns what it did for every other name, and for a name that has no
-- entry, since SetValue then changes nothing.
pub get_value-set_value :
    (name n : Str) (v : ConfigValue) (c : TopicConfig)
    → get_value n (set_value name v c) ≡ reset (str_eq name n) (get name c) v (get_value n c)
unfolding get_value set_value
get_value-set_value name n v c = elim (Option-cases (get name c)) [
  | inl missing ↦ elim (Bool-cases (str_eq name n)) [
    | inl same ↦ ground (arith, missing)
    | inr other ↦ ground (arith, missing)
  ]
  | inr (e, found) ↦ elim (Bool-cases (str_eq name n)) [
    | inl same ↦ ground (arith, found, get-put name n (record e { value = v }) c)
    | inr other ↦ ground (arith, found, get-put name n (record e { value = v }) c)
  ]
]
