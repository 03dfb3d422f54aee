-- ===== src/Rout.antt =====
-- src/rout.c, the packet path: one rule with the interface that its packets go to. The queues are
-- lists of the operations that their pointers reach, in the order of JL_LOOP.
pub mod Match
pub mod Exec
pub mod Life
use xdpacket.Base.{
  ℕ, ◌+◌, Bool, true, false, Option, none, some, List, [], ◌∷◌, if◌then◌else◌, ◌>>=◌, u32,
}
use xdpacket.Memory.{Memory}
use xdpacket.Operations.{OpSet, op_match, op_write}

pub record RoutSet : Type 0 where
  pub if_out : ℕ
  pub match_jq : List OpSet
  pub write_jq : List OpSet
  pub count_match : ℕ

pub match_loop : List OpSet → Memory → ℕ → Option Bool
match_loop [] m plen = some true
match_loop (op ∷ ops) m plen =
    op_match op m plen >>= λ hit. if hit then match_loop ops m plen else some false

abbrev pub counted : RoutSet → RoutSet
counted set = record set { count_match = u32 (set.count_match + 1) }

-- Whether it matches, and the set with its count.
pub rout_set_match : RoutSet → Memory → ℕ → Option (Bool × RoutSet)
rout_set_match set m plen = match_loop set.match_jq m plen >>= λ hit.
    if hit then some (true, counted set) else some (false, set)

pub write_loop : List OpSet → Memory → ℕ → Option (Bool × Memory)
write_loop [] m plen = some (true, m)
write_loop (op ∷ ops) m plen = op_write op m plen >>= λ done.
    if done.0 then write_loop ops done.1 plen else some (false, done.1)

-- Whether all writes were done, and the memory after the last one.
pub rout_set_exec : RoutSet → Memory → ℕ → Option (Bool × Memory)
rout_set_exec set m plen = write_loop set.write_jq m plen
