-- ===== src/Network/Chaos.antt =====
-- internal/network/chaos.go. The drop rate and the random numbers are in the same unit, parts of a
-- whole; the answer of `rand.Float64` is an argument. The latency and the status text are left out.
use go_blockchain.Prelude.{
  ℕ, ◌≡◌, refl, ap, ◌∙◌, bytes_equal_refl, Bool, true, false, ◌||◌, ◌&&◌, [], Option, none, some,
  arith, if◌then◌else◌, ltb, Bytes, Assoc, lookup, insert, delete, lookup-delete,
}

pub record ChaosNetwork : Type 0 where
  pub partitioned_nodes : Assoc Bool
  pub packet_drop_rate : ℕ

unfoldable pub new_chaos_network : ℕ → ChaosNetwork
new_chaos_network rate = record { partitioned_nodes = []; packet_drop_rate = rate }

unfoldable pub isolate_node : Bytes → ChaosNetwork → ChaosNetwork
isolate_node id cn = record cn { partitioned_nodes = insert id true cn.partitioned_nodes }

unfoldable pub heal_partition : ChaosNetwork → ChaosNetwork
heal_partition cn = record cn { partitioned_nodes = [] }

unfoldable pub heal_node : Bytes → ChaosNetwork → ChaosNetwork
heal_node id cn = record cn { partitioned_nodes = delete id cn.partitioned_nodes }

-- A missing key reads as false.
abbrev pub present : Option Bool → Bool
present none = false
present (some b) = b

unfoldable pub is_partitioned : ChaosNetwork → Bytes → Bool
is_partitioned cn id = present (lookup id cn.partitioned_nodes)

unfoldable pub should_drop_connection : ChaosNetwork → ℕ → Bytes → Bytes → Bool
should_drop_connection cn random from to =
    if is_partitioned cn from || is_partitioned cn to
    then true
    else if ltb 0 cn.packet_drop_rate && ltb random cn.packet_drop_rate
    then true
    else false

-- A connection of a healed node is dropped only for the other one, or at random.
pub should_drop_connection-heal_node :
    (cn : ChaosNetwork) (random : ℕ) (id other : Bytes)
    → should_drop_connection (heal_node id cn) random id other
      ≡ (is_partitioned (heal_node id cn) other || ltb random cn.packet_drop_rate)
unfolding should_drop_connection heal_node is_partitioned
should_drop_connection-heal_node cn random id other =
    let gone : lookup id (delete id cn.partitioned_nodes) ≡ none =
      lookup-delete id id cn.partitioned_nodes ∙ rw (bytes_equal_refl id) refl in
    let healed : present (lookup id (delete id cn.partitioned_nodes)) ≡ false = ap present gone in
    rw healed (ground arith)
