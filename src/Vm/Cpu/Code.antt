-- ===== src/Vm/Cpu/Code.antt =====
-- The code segment under the accesses of `Cpu` of common/src/vm.rs.
use vanadium.Prelude.{ℕ, ◌∙◌, Bool, true, false, if◌then◌else◌, Outcome, ok, err, panic}
use vanadium.Vm.Error.{MemoryError, CpuError}
use vanadium.Vm.Memory.{PagedMemory}
use vanadium.Vm.Memory.Laws.{IsPagedMemory}
use vanadium.Vm.Segment.{Segment, contains}
use vanadium.Vm.Segment
use vanadium.Vm.Segment.View.{HasSameBytes}
use vanadium.Vm.Segment.Access.{read_u8-HasSameBytes, read_u16-HasSameBytes, read_u32-HasSameBytes}
use vanadium.Vm.Cpu.{Cpu, Access, read, write, after_store, on_stack, on_data, on_code}

module _ {P : PagedMemory} (L : IsPagedMemory P) where
  -- The code segment of `c` has the place and the bytes of that of `c0`.
  pub record HasCode (c0 c : Cpu P.Memory) : Type 0 where
    pub at : HasSameBytes L c0.code_seg c.code_seg

  -- A read of a segment that changes none of its bytes.
  pub record IsReader {A : Type 0} (access : ℕ → Segment P → Outcome MemoryError A × Segment P)
      : Type 0 where
    pub same :
        (a : ℕ) (seg : Segment P) → L.IsGood seg.paged_memory → HasSameBytes L seg (access a seg).1

  after_read : (s t u : Segment P) → HasSameBytes L s t → HasSameBytes L t u → HasSameBytes L s u
  after_read s t u h k = record {
    same_start = k.same_start ∙ h.same_start;
    same_size = k.same_size ∙ h.same_size;
    good = k.good;
    same_pages = λ i. k.same_pages i ∙ h.same_pages i;
  }

  module _ (E : Type 0) (c0 : Cpu P.Memory) where
    HasCode-if :
        {A : Type 0} (b : Bool) (r t : A × Cpu P.Memory)
        → HasCode c0 r.1
        → HasCode c0 t.1
        → HasCode c0 (if b then r else t).1
    HasCode-if true r t hr ht = hr
    HasCode-if false r t hr ht = ht

    -- If a CPU has the code of another, a load from any address by a read that changes no byte of a
    -- segment, whatever it returns, leaves it with that code.
    pub read-HasCode :
        {A : Type 0} (access : ℕ → Segment P → Outcome MemoryError A × Segment P)
        → IsReader access
        → (a : ℕ) (c : Cpu P.Memory) → HasCode c0 c
        → HasCode c0 (read P E access a c).1
    unfolding read on_stack on_data on_code
    read-HasCode access k a c h =
        HasCode-if (contains c.stack_seg a) _ _ (record { at = h.at })
          (HasCode-if (contains c.data_seg a) _ _ (record { at = h.at })
            (HasCode-if (contains c.code_seg a) _ _
              (record { at = after_read _ _ _ h.at (k.same a c.code_seg h.at.good) }) h))

    -- If a CPU has the code of another, that is, a code segment with the same place and the same
    -- bytes over a good memory, a store to any address, whatever it returns, leaves it with that
    -- code.
    pub write-HasCode :
        (width : ℕ) (access : ℕ → ℕ → Access P E (Unit {0})) (a v : ℕ) (c : Cpu P.Memory)
        → HasCode c0 c
        → HasCode c0 (write P E width access a v c).1
    unfolding write on_stack on_data
    write-HasCode width access a v c h =
        HasCode-if (contains c.stack_seg a) _ _ (stored _ (record { at = h.at }))
          (HasCode-if (contains c.data_seg a) _ _ (stored _ (record { at = h.at })) h)
      where
        stored :
            (r : Outcome (CpuError E) (Unit {0}) × Cpu P.Memory)
            → HasCode c0 r.1
            → HasCode c0 (after_store P E width a r).1
        stored (ok u, d) k = unfold after_store in record { at = k.at }
        stored (err e, d) k = unfold after_store in k
        stored (panic, d) k = unfold after_store in k

  pub read_u8-IsReader : IsReader (Segment.read_u8 P)
  read_u8-IsReader = record { same = λ a seg g. read_u8-HasSameBytes L seg a g }

  pub read_u16-IsReader : IsReader (Segment.read_u16 P)
  read_u16-IsReader = record { same = λ a seg g. read_u16-HasSameBytes L seg a g }

  pub read_u32-IsReader : IsReader (Segment.read_u32 P)
  read_u32-IsReader = record { same = λ a seg g. read_u32-HasSameBytes L seg a g }
