-- ===== src/Broker/Errors.antt =====
-- protocol/error.go: the codes that the handlers answer with.
use jocko.Common.Int.{ℤ, pos, negsuc}

abbrev pub err_unknown : ℤ
err_unknown = negsuc 0

abbrev pub err_none : ℤ
err_none = pos 0

abbrev pub err_illegal_generation : ℤ
err_illegal_generation = pos 22

abbrev pub err_invalid_group_id : ℤ
err_invalid_group_id = pos 24

abbrev pub err_unknown_member_id : ℤ
err_unknown_member_id = pos 25

abbrev pub err_rebalance_in_progress : ℤ
err_rebalance_in_progress = pos 27

abbrev pub err_topic_already_exists : ℤ
err_topic_already_exists = pos 36

abbrev pub err_invalid_replication_factor : ℤ
err_invalid_replication_factor = pos 38

abbrev pub err_not_controller : ℤ
err_not_controller = pos 41

abbrev pub err_unknown_topic_or_partition : ℤ
err_unknown_topic_or_partition = pos 3

abbrev pub err_request_timed_out : ℤ
err_request_timed_out = pos 7

abbrev pub err_broker_not_available : ℤ
err_broker_not_available = pos 8
