-- ===== src/Broker/Membership.antt =====
-- jocko/broker.go: what JoinGroup makes of a group.
use jocko.Common.{ℕ, Bool, true, false, Option, none, some, List, [], ◌∷◌, ◌++◌, map, Str}
use jocko.Common.Int.{ℤ, pos}
use jocko.Common.Eq.{str_Eq}
use jocko.Common.Assoc.{assign}
use jocko.Fsm.Structs.{Group, Member, preparing_rebalance}
use jocko.Protocol.Message.JoinGroup.{ResponseMember}

pub record GroupProtocol : Type 0 where
  pub protocol_name : Str
  pub protocol_metadata : Option (List ℕ)

pub record JoinGroupRequest : Type 0 where
  pub api_version : ℤ
  pub group_id : Str
  pub session_timeout : ℤ
  pub rebalance_timeout : ℤ
  pub member_id : Str
  pub protocol_type : Str
  pub group_protocols : List GroupProtocol

-- The group that JoinGroup creates.
abbrev pub new_group : Str → ℤ → Group
new_group id broker = record {
  id = [];
  group = id;
  coordinator = broker;
  leader_id = [];
  members = [];
  state = preparing_rebalance;
  generation_id = pos 0;
  raft_index = record { create_index = 0; modify_index = 0 };
}

abbrev pub or_new : Option Group → Str → ℤ → Group
or_new none id broker = new_group id broker
or_new (some g) id broker = g

-- ClientID + "-" + uuid
abbrev pub fresh_id : Str → Str → Str
fresh_id client uuid = client ++ (45 ∷ uuid)

abbrev pub new_member : Str → Member
new_member id = record { id = id; metadata = none; assignment = none }

abbrev pub member_or_fresh : Str → Str → Str
member_or_fresh [] fresh = fresh
member_or_fresh (c ∷ cs) fresh = c ∷ cs

abbrev pub with_member : Str → Str → Group → Group
with_member [] fresh g = record g { members = assign fresh (new_member fresh) g.members }
with_member (c ∷ cs) fresh g = g

abbrev pub leader_or : Str → Str → Str
leader_or [] member = member
leader_or (c ∷ cs) member = c ∷ cs

-- The group after the assignments of JoinGroup, for a member id as it was sent.
unfoldable pub joined : Str → Str → Group → Group
joined member fresh g =
    let g' = with_member member fresh g in
    record g' { leader_id = leader_or g.leader_id (member_or_fresh member fresh) }

abbrev pub response_members : Bool → List (Str × Member) → List ResponseMember
response_members true members =
    map (λ m. record { member_id = m.1.id; member_metadata = m.1.metadata }) members
response_members false members = []
