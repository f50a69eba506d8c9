-- ===== src/Broker/Groups/Joins.antt =====
-- handleJoinGroup of jocko/broker.go.
use jocko.Common.{
  ℕ, Bool, true, false, ◌&&◌, Option, none, some, List, [], ◌∷◌, Str, str_eq, ◌≡◌, refl, sym, ap,
  subst, ◌∙◌, if◌then◌else◌,
}
use jocko.Common.Int.{ℤ}
use jocko.Common.Eq.{str_Eq}
use jocko.Common.Assoc.{find, find-assign}
use jocko.Fsm.Structs.{Group, Member}
use jocko.Fsm.Store.{Database}
use jocko.Fsm.Apply.{register_group}
use jocko.Broker.Errors.{err_none, err_unknown}
use jocko.Broker.Raft.{RaftResult, is_fine, applied, dropped, Cluster, after_entry, raft_apply}
use jocko.Broker.Groups.{
  JoinGroupRequest, group_of, touch, or_new, joined, join_group, fresh_id, member_or_fresh,
  leader_or, code_of, new_member,
}
use jocko.Broker.Groups.Stores.{
  group_at, was_written, stamped, after_entry-group, with_group, over_touched, touched-group,
  or_new-key,
}
use mathlib.Core.Option

abbrev pub is_nil : Str → Bool
is_nil [] = true
is_nil (c ∷ cs) = false

abbrev pub members_of : Option Group → List (Str × Member)
members_of none = []
members_of (some g) = g.members

joined-group : (member fresh : Str) (g : Group) → (joined member fresh g).group ≡ g.group
unfolding joined
joined-group [] fresh g = refl
joined-group (c ∷ cs) fresh g = refl

find-joined :
    (member fresh : Str) (g : Group) (l : Str)
    → find l (joined member fresh g).members ≡ (
        if is_nil member && str_eq (member_or_fresh member fresh) l
        then some (new_member (member_or_fresh member fresh))
        else find l g.members)
unfolding joined
find-joined [] fresh g l = find-assign fresh (new_member fresh) g.members l
find-joined (c ∷ cs) fresh g l = refl

-- The leader of a group that may not be there.
abbrev pub leader_of : Option Group → Str
leader_of none = []
leader_of (some g) = g.leader_id

leader-or_new :
    (found : Option Group) (id : Str) (broker : ℤ)
    → (or_new found id broker).leader_id ≡ leader_of found
leader-or_new none id broker = refl
leader-or_new (some g) id broker = refl

first_leader :
    (leader member fresh : Str)
    → leader_or leader (member_or_fresh member fresh)
      ≡ (if is_nil leader then (if is_nil member then fresh else member) else leader)
first_leader [] [] fresh = refl
first_leader [] (c ∷ cs) fresh = refl
first_leader (c ∷ cs) member fresh = refl

leader-joined :
    (member fresh : Str) (g : Group)
    → (joined member fresh g).leader_id
      ≡ (if is_nil g.leader_id then (if is_nil member then fresh else member) else g.leader_id)
unfolding joined
leader-joined member fresh g = first_leader g.leader_id member fresh

members-joined :
    (member fresh : Str) (g : Group) (l : Str)
    → find l (joined member fresh g).members
      ≡ (if is_nil member && str_eq fresh l then some (new_member fresh) else find l g.members)
unfolding joined
members-joined [] fresh g l = find-assign fresh (new_member fresh) g.members l
members-joined (c ∷ cs) fresh g l = refl

members-or_new :
    (found : Option Group) (id : Str) (broker : ℤ)
    → (or_new found id broker).members ≡ members_of found
members-or_new none id broker = refl
members-or_new (some g) id broker = refl

module _ (db : Database) (broker : ℤ) (client uuid : Str) (r : JoinGroupRequest) where
  -- The group that the handler gives to Raft, and the cluster at that time.
  abbrev pub entry_of : Cluster db → Group
  entry_of c =
      joined r.member_id (fresh_id client uuid)
        (or_new (group_of db r.group_id c) r.group_id broker)

  abbrev pub before_raft : Cluster db → Cluster db
  before_raft c = touch db (group_of db r.group_id c) (entry_of c) c

  entry_of-key : (c : Cluster db) → db.to_lower (entry_of c).group ≡ db.to_lower r.group_id
  entry_of-key c =
      ap db.to_lower (
        joined-group r.member_id (fresh_id client uuid)
          (or_new (group_of db r.group_id c) r.group_id broker))
      ∙ or_new-key db r.group_id broker c

  -- When Raft applies the entry of JoinGroup and its transaction succeeds, the response has no error,
  -- and the store has one group under the name, and every other group as it was. That group has the
  -- leader of the response, and the members that were there, with a new member of the id in the
  -- response if the request had no id.
  pub join_group-applied :
      (outcomes : ℕ → RaftResult) (idx : ℕ) (c : Cluster db)
      → outcomes c.calls ≡ applied idx
      → was_written db (applied idx) (entry_of c) (before_raft c).store ≡ true
      → let (res, c') = join_group db outcomes broker client uuid r c in
        (res.error_code ≡ err_none)
        × (x : Group) × (x.leader_id ≡ res.leader_id)
        × ((l : Str)
            → find l x.members ≡ (
                if is_nil r.member_id && str_eq res.member_id l
                then some (new_member res.member_id)
                else find l (members_of (group_of db r.group_id c))))
        × ((k : Str)
            → group_at db k c'.store
              ≡ (if str_eq (db.to_lower r.group_id) k then some x else group_at db k c.store))
  unfolding join_group raft_apply
  join_group-applied outcomes idx c h w =
      let fresh = fresh_id client uuid in
      let member = member_or_fresh r.member_id fresh in
      let g = entry_of c in
      let s = (before_raft c).store in
      let x = stamped db idx g s in
      (
        ap (λ o. code_of (is_fine o)) h,
        x,
        sym (ap (λ o. if is_fine o then g.leader_id else []) h),
        λ l.
            subst
              (λ (id : Str). find l g.members ≡ (
                if is_nil r.member_id && str_eq id l
                then some (new_member id)
                else find l (members_of (group_of db r.group_id c))))
              (sym (ap (λ o. if is_fine o then member else []) h))
              (find-joined r.member_id fresh (or_new (group_of db r.group_id c) r.group_id broker) l
                ∙ ap
                    (λ ms.
                      if is_nil r.member_id && str_eq member l
                      then some (new_member member)
                      else find l ms)
                    (members-or_new (group_of db r.group_id c) r.group_id broker)),
        λ k.
            ap (λ o. group_at db k (after_entry db o (register_group g) s)) h
            ∙ after_entry-group db (applied idx) g s k
            ∙ ap (λ b. with_group db b idx g s k) w
            ∙ over_touched db (group_of db r.group_id c) g x c (db.to_lower r.group_id) k
                (entry_of-key c),
      )

  -- When Raft drops the entry of JoinGroup, the response has the error `unknown`, no group is added
  -- and no other group changes, but a group of the name that was there has changed in the store of
  -- this broker. A request without an id has added a member of a new id to it, beside the members
  -- that were there, and a group without a leader has got one: the new id, or the id of the request.
  pub join_group-dropped :
      (outcomes : ℕ → RaftResult) (c : Cluster db)
      → outcomes c.calls ≡ dropped
      → let (res, c') = join_group db outcomes broker client uuid r c in
        let fresh = fresh_id client uuid in
        let found = group_of db r.group_id c in
        (res.error_code ≡ err_unknown)
        × (x : Group) × (x.leader_id ≡ (
            if is_nil (leader_of found)
            then (if is_nil r.member_id then fresh else r.member_id)
            else leader_of found))
        × ((l : Str)
            → find l x.members ≡ (
                if is_nil r.member_id && str_eq fresh l
                then some (record { id = fresh; metadata = none; assignment = none })
                else find l (members_of found)))
        × ((k : Str)
            → group_at db k c'.store ≡ (
                if str_eq (db.to_lower r.group_id) k
                then Option.map (λ _. x) (group_at db k c.store)
                else group_at db k c.store))
  unfolding join_group raft_apply after_entry
  join_group-dropped outcomes c h =
      let fresh = fresh_id client uuid in
      let found = group_of db r.group_id c in
      let g = or_new found r.group_id broker in
      (
        ap (λ o. code_of (is_fine o)) h,
        entry_of c,
        leader-joined r.member_id fresh g
            ∙ ap (λ l. if is_nil l then (if is_nil r.member_id then fresh else r.member_id) else l)
                (leader-or_new found r.group_id broker),
        λ l.
            members-joined r.member_id fresh g l
            ∙ ap
                (λ ms.
                  if is_nil r.member_id && str_eq fresh l
                  then some (new_member fresh)
                  else find l ms)
                (members-or_new found r.group_id broker),
        λ k.
            ap
              (λ o.
                group_at db k
                  (after_entry db o (register_group (entry_of c)) (before_raft c).store))
              h
            ∙ touched-group db r.group_id (entry_of c) c k (entry_of-key c),
      )
