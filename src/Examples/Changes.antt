-- ===== src/Examples/Changes.antt =====
-- The theorems on membership changes, at the leader of a cluster of three.
use macro_service.Prelude.{◌≢◌, refl}
use macro_service.Raft.Membership.{
  Members, new_membership, add_node, remove_node, undisturbed, refused, cannot_remove_last_peer,
  contains,
}
use macro_service.Raft.Membership.Consistent.{
  IsConsistent, Sound, add_node-Sound, remove_node-Sound,
}
use macro_service.Examples.Cluster.{leader_node, leader_log}

abbrev three : Members
three = new_membership leader_node.state leader_log

three-IsConsistent : IsConsistent three.state
unfolding contains
three-IsConsistent = record {
  distinct = (refl, (refl, tt));
  not_itself = refl;
  indices = (refl, refl);
}

add_node-Sound_example : Sound (add_node undisturbed 4 three)
add_node-Sound_example = add_node-Sound 4 three three-IsConsistent

remove_node-Sound_example :
    Sound (remove_node undisturbed 3 three)
    × (remove_node undisturbed 3 three ≢ refused cannot_remove_last_peer)
remove_node-Sound_example = remove_node-Sound 3 three three-IsConsistent
