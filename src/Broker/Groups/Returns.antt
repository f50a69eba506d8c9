-- ===== src/Broker/Groups/Returns.antt =====
-- JoinGroup and then LeaveGroup of jocko/broker.go.
use jocko.Common.{
  ℕ, Bool, true, false, ◌&&◌, none, some, List, [], Str, str_eq, str_eq_refl, eq_of_str_eq, ◌≡◌,
  refl, sym, ap, subst, ◌∙◌, if◌then◌else◌,
}
use jocko.Common.Int.{ℤ}
use jocko.Common.Eq.{str_Eq}
use jocko.Common.Assoc.{find}
use jocko.Fsm.Structs.{Group, Member}
use jocko.Fsm.Store.{Database}
use jocko.Protocol.Message.Membership.{LeaveGroupRequest}
use jocko.Broker.Errors.{err_none}
use jocko.Broker.Raft.{RaftResult, applied, Cluster}
use jocko.Broker.Groups.{JoinGroupRequest, group_of, join_group, leave_group, new_member}
use jocko.Broker.Groups.Stores.{was_written}
use jocko.Broker.Groups.Joins.{is_nil, entry_of, before_raft, members_of, join_group-applied}
use jocko.Broker.Groups.Leaves.{left_of, before_leave, leave_group-applied}

module _ (db : Database) (outcomes : ℕ → RaftResult) where
  same_members :
      (id l : Str) (old : List (Str × Member)) (new : Member)
      → find id old ≡ none
      → (if str_eq id l then none else (if str_eq id l then some new else find l old)) ≡ find l old
  same_members id l old new absent = go (str_eq id l) refl
    where
      go :
          (b : Bool)
          → str_eq id l ≡ b
          → (if b then none else (if b then some new else find l old)) ≡ find l old
      go true e = sym (subst (λ j. find j old ≡ none) (eq_of_str_eq id l e) absent)
      go false e = refl

  -- A member that joins without an id and leaves with the id it was given, which no member of the
  -- group had, leaves the group with the members from before, when Raft applies both entries and
  -- their transactions succeed. The group stays in the store, with the leader that the response to
  -- the join names.
  pub leave_group-join_group :
      (broker : ℤ) (client uuid : Str) (r : JoinGroupRequest) (version : ℤ) (i j : ℕ)
      (c : Cluster db)
      → let (res, joined) = join_group db outcomes broker client uuid r c in
        let leave : LeaveGroupRequest = record {
          api_version = version;
          group_id = r.group_id;
          member_id = res.member_id;
        } in
        r.member_id ≡ []
        → find res.member_id (members_of (group_of db r.group_id c)) ≡ none
        → outcomes c.calls ≡ applied i
        → was_written db
            (applied i)
            (entry_of db broker client uuid r c)
            (before_raft db broker client uuid r c).store
          ≡ true
        → outcomes joined.calls ≡ applied j
        → ((g : Group)
            → group_of db r.group_id joined ≡ some g
            → was_written db (applied j) (left_of db leave g) (before_leave db leave g joined).store
              ≡ true)
        → let (answer, left) = leave_group db outcomes leave joined in
          (answer.error_code ≡ err_none)
          × (y : Group) × (group_of db r.group_id left ≡ some y)
          × (y.leader_id ≡ res.leader_id)
          × ((l : Str) → find l y.members ≡ find l (members_of (group_of db r.group_id c)))
  leave_group-join_group broker client uuid r version i j c no_id absent h w h' w' =
      let (res, joined) = join_group db outcomes broker client uuid r c in
      let leave : LeaveGroupRequest = record {
        api_version = version;
        group_id = r.group_id;
        member_id = res.member_id;
      } in
      let (fine, x, leads, has, rows) =
        join_group-applied db broker client uuid r outcomes i c h w in
      let id = res.member_id in
      let old = members_of (group_of db r.group_id c) in
      let found : group_of db r.group_id joined ≡ some x =
        rows (db.to_lower r.group_id)
        ∙ ap (λ b. if b then some x else group_of db r.group_id c)
            (str_eq_refl (db.to_lower r.group_id)) in
      let has' : (l : Str)
          → find l x.members ≡ (if str_eq id l then some (new_member id) else find l old) =
        (λ l.
          has l
          ∙ ap (λ b. if b && str_eq id l then some (new_member id) else find l old)
              (ap is_nil no_id)) in
      let here : find id x.members ≡ some (new_member id) =
        has' id ∙ ap (λ b. if b then some (new_member id) else find id old) (str_eq_refl id) in
      let (fine', y, leads', has'', rows') =
        leave_group-applied db leave outcomes j joined x (new_member id) found here h'
          (w' x found) in
      (
        fine',
        y,
        rows' (db.to_lower r.group_id)
            ∙ ap (λ b. if b then some y else group_of db r.group_id joined)
                (str_eq_refl (db.to_lower r.group_id)),
        leads' ∙ leads,
        λ l.
            has'' l
            ∙ ap (λ o. if str_eq id l then none else o) (has' l)
            ∙ same_members id l old (new_member id) absent,
      )
