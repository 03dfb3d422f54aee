-- ===== src/Op/Free.antt =====
-- `op_free` gives back what an operation holds.
use xdpacket.Base.{◌+◌, some, ◌≡◌, refl, arith}
use xdpacket.Judy.{JudySl}
use xdpacket.Registry.Accounts.{one_at, release-Accounts, Recount-trans}
use xdpacket.Field as Field
use xdpacket.Field.{field_release}
use xdpacket.Memref.Release.{release-Ledger}
use xdpacket.Memref.Back.{Back-trans, memref_release-Back}
use xdpacket.Op.{Op, Heap, op_free}
use xdpacket.Op.Books.{Holding, with_op, Books, Shrinks}

-- Where every count of the heap is the number of references that are held, those of an operation
-- among them, `op_free` on it returns and gives back its references and no others. All fields stay
-- with the same name and set, and every memref that is left was there and has the same bytes.
pub op_free-Books :
    {J : JudySl} (h : Heap J) (n : Holding) (o : Op)
    → Books h (with_op n o)
    → (h' : Heap J) × (op_free h o ≡ some h') × Books h' n × Shrinks h h'
unfolding op_free field_release
op_free-Books h n o v =
    let (f, run_f, f_ok, same) =
      release-Accounts Field.counted h.fields o.dst_field _ (λ q. n.fields q + one_at o.src_field q)
        v.fields (λ q. omega arith) in
    let (f', run_f', f_ok', same') =
      release-Accounts Field.counted f o.src_field _ n.fields f_ok (λ q. omega arith) in
    let (s, run_s, s_ok) =
      release-Ledger h.states _ (λ q. n.states q + one_at o.src q) v.states o.dst
        (λ q. omega arith) in
    let (s', run_s', s_ok') = release-Ledger s _ n.states s_ok o.src (λ q. omega arith) in
    (
      record { fields = f'; states = s' },
      rw (run_f, run_f', run_s, run_s') refl,
      record { fields = f_ok'; states = s_ok' },
      record {
        fields = (Recount-trans Field.counted h.fields f f' same same').objects;
        states =
            Back-trans h.states s s' (memref_release-Back h.states s o.dst run_s)
              (memref_release-Back s s' o.src run_s');
      },
    )
