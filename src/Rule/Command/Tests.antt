-- ===== src/Rule/Command/Tests.antt =====
-- A command that adds a rule with one operation.
use xdpacket.Base.{arith, true, [], none, some, ◌≡◌}
use xdpacket.Yaml.{Node, scalar, sequence, mapping, no_item, item, Pairs, no_pair, pair}
use xdpacket.Field.Command.{parse_add}
use xdpacket.Op.{Request, op_new}
use xdpacket.Op.New.Made.{Returns}
use xdpacket.Op.Parse.{op_parse_new}
use xdpacket.Op.Parse.Read.{as_mapping, op_parse_new-Returns}
use xdpacket.Op.Example.{heap, calls, calls-IsCalls}
use xdpacket.Rule.Total.{total}
use xdpacket.Rule.Books.{ops_fields, ops_states, with_ops, of_rules, RuleBooks}
use xdpacket.Rule.Safe.{Safe}
use xdpacket.Rule.Packets.{Reachable-Safe}
use xdpacket.Rule.Example.{no_rules, begun, begun-Reachable, begun-HasRoom}
use xdpacket.Rule.Command.{rule_parse}
use xdpacket.Rule.Command.Loop.{HasRoomFor}
use xdpacket.Rule.Command.Laws.{Parses, rule_parse-Parses}

abbrev on_port : Node
on_port = mapping (pair "field" (scalar "port") no_pair)

abbrev an_op : Pairs
an_op = pair "dst" on_port (pair "s" on_port no_pair)

abbrev a_rule : Pairs
a_rule =
    pair "rule" (scalar "ports")
      (pair "match" (sequence (item (mapping an_op) (item (scalar "?") no_item))) no_pair)

begun_books : RuleBooks begun.world [] (λ q. 0)
begun_books = Safe.books (Reachable-Safe calls calls-IsCalls begun begun-Reachable)

abbrev asked_op : Request
asked_op = record {
  dst_field_name = some "port";
  dst_state_name = none;
  src_field_name = some "port";
  src_state_name = none;
  src_value = some "80";
}

op_parse_new-Returns_example :
    Returns
      (with_ops (of_rules no_rules) [])
      (heap 0)
      asked_op
      (op_parse_new calls (heap 0) true (as_mapping true asked_op none (some "2B")))
    × (op_parse_new calls (heap 0) true (as_mapping true asked_op none (some "2B"))
        ≡ op_new calls (heap 0) true asked_op)
op_parse_new-Returns_example =
    op_parse_new-Returns calls calls-IsCalls (with_ops (of_rules no_rules) []) begun-HasRoom
      (heap 0) begun_books.books true true asked_op none (some "2B")

begun-HasRoomFor : HasRoomFor (with_ops (of_rules no_rules) []) 2
unfolding total ops_fields ops_states
begun-HasRoomFor = record { fields = λ q. omega arith; states = λ q. omega arith }

rule_parse-Parses_example :
    Parses []
      (λ q. 0)
      (λ k. true)
      a_rule
      (rule_parse calls
        (λ a. true)
        (λ w. true)
        (λ k. true)
        (λ k. true)
        parse_add
        begun.world
        a_rule)
rule_parse-Parses_example =
    rule_parse-Parses calls calls-IsCalls (λ a. true) (λ w. true) [] (λ q. 0) (λ k. true)
      (λ k. true) parse_add begun.world a_rule begun_books begun-HasRoomFor
