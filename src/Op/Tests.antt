-- ===== src/Op/Tests.antt =====
-- An operation made and freed.
use xdpacket.Base.{arith, true, some}
use xdpacket.Op.{Heap, op_new}
use xdpacket.Op.Books.{nothing, HasRoom}
use xdpacket.Op.New.Made.{Returns, op_new-Returns}
use xdpacket.Memref.{memref_value_new}
use xdpacket.Memref.Literal.{MakesValue, memref_value_new-Takes}
use xdpacket.Value.Example.{readers-IsReaders}
use xdpacket.Op.Example.{port, heap, heap-Books, request, calls, calls-IsCalls}

nothing-HasRoom : HasRoom nothing
nothing-HasRoom = record { fields = λ q. omega arith; states = λ q. omega arith }

op_new-Returns_example : Returns nothing (heap 0) request (op_new calls (heap 0) true request)
op_new-Returns_example =
    op_new-Returns nothing calls request (heap 0) true calls-IsCalls nothing-HasRoom heap-Books

memref_value_new-Takes_example :
    MakesValue
      (Heap.states (heap 0))
      port
      (λ q. 0)
      (memref_value_new calls.literals (Heap.states (heap 0)) (some port) (some "80"))
memref_value_new-Takes_example =
    memref_value_new-Takes (Heap.states (heap 0)) port (λ q. 0) heap-Books.states calls.literals
      readers-IsReaders "80" (calls-IsCalls.value_memory 0 "80" 65535)
