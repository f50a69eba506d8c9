-- ===== src/Fsm/TopicConfig.antt =====
-- jocko/structs/topic_config.go: the configuration of a topic. A Go map is an association list in
-- which a key stands once.
pub mod Settings
use jocko.Common.{
  ℕ, Bool, true, false, Option, none, some, List, [], ◌∷◌, Str, codes, str_eq, map, if◌then◌else◌,
}
use jocko.Common.Int.{ℤ, pos, negsuc}
use Prim.Native.String.{String}

-- The values that stand behind an interface{} in a configuration; `tenths` is for 0.5.
pub data ConfigValue : Type 0 where
  nil : ConfigValue
  text : Str → ConfigValue
  number : ℤ → ConfigValue
  tenths : ℕ → ConfigValue
  flag : Bool → ConfigValue

-- ConfigEntry and TopicConfigEntry; ValidValues is never set.
pub record TopicConfigEntry : Type 0 where
  pub name : Str
  pub default : ConfigValue
  pub value : ConfigValue
  pub server_default : Str

abbrev pub TopicConfig : Type 0
TopicConfig = List (Str × TopicConfigEntry)

-- c[name]
unfoldable pub get : Str → TopicConfig → Option TopicConfigEntry
get name [] = none
get name ((k, e) ∷ c) = if str_eq k name then some e else get name c

put : Str → TopicConfigEntry → TopicConfig → TopicConfig
put name e [] = (name, e) ∷ []
put name e ((k, old) ∷ c) = if str_eq k name then (name, e) ∷ c else (k, old) ∷ put name e c

-- Set
unfoldable pub set : TopicConfigEntry → TopicConfig → TopicConfig
unfolding put
set e c = put e.name e c

abbrev or_default : ConfigValue → ConfigValue → ConfigValue
or_default nil default = default
or_default v default = v

abbrev value_of : Option TopicConfigEntry → ConfigValue
value_of none = nil
value_of (some e) = or_default e.value e.default

-- GetValue
unfoldable pub get_value : Str → TopicConfig → ConfigValue
unfolding get
get_value name c = value_of (get name c)

abbrev with_value : Option TopicConfigEntry → Str → ConfigValue → TopicConfig → TopicConfig
with_value none name v c = c
with_value (some e) name v c = put name (record e { value = v }) c

-- SetValue
unfoldable pub set_value : Str → ConfigValue → TopicConfig → TopicConfig
unfolding get put
set_value name v c = with_value (get name c) name v c

abbrev entry : String → ConfigValue → String → TopicConfigEntry
entry name default server_default = record {
  name = codes name;
  default = default;
  value = nil;
  server_default = codes server_default;
}

-- The entries that NewTopicConfig sets, in its order.
default_entries : List TopicConfigEntry
default_entries =
    entry "cleanup.policy" (text (codes "delete")) "log.cleanup.policy"
    ∷ entry "compression.type" (text (codes "producer")) "compression.type"
    ∷ entry "delete.retention.ms" (number (pos 86400000)) "log.cleaner.delete.retention.ms"
    ∷ entry "file.delete.delay.ms" (number (pos 60000)) "log.segment.delete.delay.ms"
    ∷ entry "flush.messages" (number (pos 9223372036854)) "log.flush.interval.messages"
    ∷ entry "flush.ms" (number (pos 9223372036854775807)) "log.flush.interval.ms"
    ∷ entry "follower.replication.throttled.replicas" (nil)
        "follower.replication.throttled.replicas"
    ∷ entry "index.interval.bytes" (number (pos 4096)) "log.index.interval.bytes"
    ∷ entry "leader.replication.throttled.replicas" (nil) "leader.replication.throttled.replicas"
    ∷ entry "max.message.bytes" (number (pos 1000012)) "message.max.bytes"
    ∷ entry "message.format.version" (text (codes "1.1-IV0")) "log.message.format.version"
    ∷ entry "message.timestamp.difference.max.ms" (number (pos 9223372036854775807))
        "log.message.timestamp.difference.max.ms"
    ∷ entry "message.timestamp.type" (text (codes "CreateTime")) ""
    ∷ entry "min.cleanable.dirty.ratio" (tenths 5) "log.cleaner.min.cleanable.ratio"
    ∷ entry "min.compaction.lag.ms" (number (pos 0)) "log.cleaner.min.compaction.lag.ms"
    ∷ entry "min.insync.replicas" (number (pos 1)) "min.insync.replicas"
    ∷ entry "preallocate" (flag false) "log.preallocate"
    ∷ entry "retention.bytes" (number (negsuc 0)) "log.retention.bytes"
    ∷ entry "retention.ms" (number (pos 604800000)) "log.retention.ms"
    ∷ entry "segment.bytes" (number (pos 1073741824)) "log.segment.bytes"
    ∷ entry "segment.index.bytes" (number (pos 10485760)) "log.index.size.max.bytes"
    ∷ entry "segment.jitter.ms" (number (pos 0)) "log.roll.jitter.ms"
    ∷ entry "segment.ms" (number (pos 604800000)) "log.roll.ms"
    ∷ entry "unclean.leader.election.enable" (text (codes "false")) "unclean.leader.election.enable"
    ∷ []

set_all : List TopicConfigEntry → TopicConfig → TopicConfig
set_all [] c = c
set_all (e ∷ es) c = set_all es (set e c)

-- NewTopicConfig
unfoldable pub new_topic_config : TopicConfig
unfolding default_entries set_all set
new_topic_config = set_all default_entries []
