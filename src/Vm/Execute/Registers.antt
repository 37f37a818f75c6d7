-- ===== src/Vm/Execute/Registers.antt =====
-- What one instruction does to the registers, the program counter and the reservation, for any memory.
use vanadium.Prelude.{
  ℕ, Option, some, none, ◌≡◌, ◌%◌, refl, Outcome, ok, err, panic, arith, length, length-set,
  get_or-set_self,
}
use vanadium.Word.{IsU32}
use vanadium.Vm.Error.{CpuError}
use vanadium.Vm.Memory.{PagedMemory}
use vanadium.Vm.Cpu.{Cpu, reg}
use vanadium.Vm.Cpu.Quiet.{IsUntouched}
use vanadium.Vm.Arm.{State}
use vanadium.Vm.Arm.Effect.{
  Ends, IsDone, untouched, load_u8-Ends, load_u16-Ends, load_u32-Ends, store_u8-Ends,
  store_u16-Ends, store_u32-Ends, amo-Ends, load_reserved-Ends, store_conditional-Ends, binary-Ends,
  immediate-Ends, auipc-Ends, lui-Ends, fence-Ends, branch-Ends, jal-Ends, jalr-Ends,
}
use vanadium.Vm.Execute.{execute_op, execute, finish, dispatch, call_handler, Handler}
use vanadium.Riscv.Op.{Op}
use vanadium.Riscv.Decode.{decode}
use vanadium.Riscv.Decode.Jumps.{EvenOffset, decode-HasEvenOffset}

-- What the rest of the virtual machine keeps true of a CPU between two instructions.
pub record IsWellFormed {M : Type 0} (cpu : Cpu M) : Type 0 where
  pub has_registers : length cpu.regs ≡ 32
  pub zero_register : reg cpu 0 ≡ 0
  pub even_pc : cpu.pc % 2 ≡ 0
  pub pc_fits : IsU32 cpu.pc

module _ (P : PagedMemory) (E : Type 0) where
  module _ (cpu : State P E) (size : ℕ) (even : cpu.pc % 2 ≡ 0) (fits : IsU32 cpu.pc)
      (even_size : size % 2 ≡ 0) where
    ruleset arms = (
      load_u8-Ends, load_u16-Ends, load_u32-Ends, store_u8-Ends, store_u16-Ends, store_u32-Ends,
      amo-Ends, load_reserved-Ends, store_conditional-Ends, binary-Ends, immediate-Ends, auipc-Ends,
      lui-Ends, fence-Ends, branch-Ends, jal-Ends, jalr-Ends,
    )

    pub execute_op-Ends : (op : Op) → EvenOffset op → Ends cpu (execute_op P E op size cpu)
    unfolding execute_op
    execute_op-Ends (Op.add rd rs1 rs2) h = search arms
    execute_op-Ends (Op.sub rd rs1 rs2) h = search arms
    execute_op-Ends (Op.sll rd rs1 rs2) h = search arms
    execute_op-Ends (Op.slt rd rs1 rs2) h = search arms
    execute_op-Ends (Op.sltu rd rs1 rs2) h = search arms
    execute_op-Ends (Op.xor rd rs1 rs2) h = search arms
    execute_op-Ends (Op.srl rd rs1 rs2) h = search arms
    execute_op-Ends (Op.sra rd rs1 rs2) h = search arms
    execute_op-Ends (Op.or rd rs1 rs2) h = search arms
    execute_op-Ends (Op.and rd rs1 rs2) h = search arms
    execute_op-Ends (Op.mul rd rs1 rs2) h = search arms
    execute_op-Ends (Op.mulh rd rs1 rs2) h = search arms
    execute_op-Ends (Op.mulhsu rd rs1 rs2) h = search arms
    execute_op-Ends (Op.mulhu rd rs1 rs2) h = search arms
    execute_op-Ends (Op.div rd rs1 rs2) h = search arms
    execute_op-Ends (Op.divu rd rs1 rs2) h = search arms
    execute_op-Ends (Op.rem rd rs1 rs2) h = search arms
    execute_op-Ends (Op.remu rd rs1 rs2) h = search arms
    execute_op-Ends (Op.addi rd rs1 imm) h = search arms
    execute_op-Ends (Op.andi rd rs1 imm) h = search arms
    execute_op-Ends (Op.auipc rd imm) h = search arms
    execute_op-Ends (Op.beq rs1 rs2 imm) h = search arms
    execute_op-Ends (Op.bne rs1 rs2 imm) h = search arms
    execute_op-Ends (Op.blt rs1 rs2 imm) h = search arms
    execute_op-Ends (Op.bge rs1 rs2 imm) h = search arms
    execute_op-Ends (Op.bltu rs1 rs2 imm) h = search arms
    execute_op-Ends (Op.bgeu rs1 rs2 imm) h = search arms
    execute_op-Ends (Op.jal rd imm) h = search arms
    execute_op-Ends (Op.jalr rd rs1 imm) h = search arms
    execute_op-Ends (Op.lb rd rs1 imm) h = search arms
    execute_op-Ends (Op.lh rd rs1 imm) h = search arms
    execute_op-Ends (Op.lw rd rs1 imm) h = search arms
    execute_op-Ends (Op.lbu rd rs1 imm) h = search arms
    execute_op-Ends (Op.lhu rd rs1 imm) h = search arms
    execute_op-Ends (Op.lui rd imm) h = search arms
    execute_op-Ends (Op.ori rd rs1 imm) h = search arms
    execute_op-Ends (Op.sb rs1 rs2 imm) h = search arms
    execute_op-Ends (Op.sh rs1 rs2 imm) h = search arms
    execute_op-Ends (Op.sw rs1 rs2 imm) h = search arms
    execute_op-Ends (Op.slli rd rs1 imm) h = search arms
    execute_op-Ends (Op.slti rd rs1 imm) h = search arms
    execute_op-Ends (Op.sltiu rd rs1 imm) h = search arms
    execute_op-Ends (Op.srli rd rs1 imm) h = search arms
    execute_op-Ends (Op.srai rd rs1 imm) h = search arms
    execute_op-Ends (Op.xori rd rs1 imm) h = search arms
    execute_op-Ends (Op.lr_w rd rs1) h = search arms
    execute_op-Ends (Op.sc_w rd rs1 rs2) h = search arms
    execute_op-Ends (Op.amoswap_w rd rs1 rs2) h = search arms
    execute_op-Ends (Op.amoadd_w rd rs1 rs2) h = search arms
    execute_op-Ends (Op.amoxor_w rd rs1 rs2) h = search arms
    execute_op-Ends (Op.amoand_w rd rs1 rs2) h = search arms
    execute_op-Ends (Op.amoor_w rd rs1 rs2) h = search arms
    execute_op-Ends (Op.amomin_w rd rs1 rs2) h = search arms
    execute_op-Ends (Op.amomax_w rd rs1 rs2) h = search arms
    execute_op-Ends (Op.amominu_w rd rs1 rs2) h = search arms
    execute_op-Ends (Op.amomaxu_w rd rs1 rs2) h = search arms
    execute_op-Ends Op.fence h = search arms
    execute_op-Ends Op.ecall h = record { at = untouched P E cpu }
    execute_op-Ends Op.break h = record { at = untouched P E cpu }
    execute_op-Ends Op.unknown h = record { at = untouched P E cpu }

  IsWellFormed-untouched : (c0 c : State P E) → IsWellFormed c0 → IsUntouched c0 c → IsWellFormed c
  IsWellFormed-untouched c0 c w u = record {
    has_registers = ground arith;
    zero_register = ground arith;
    even_pc = ground arith;
    pc_fits = ground arith;
  }

  -- What `finish` makes of the end of an arm.
  IsEnded : {H : Type 0} → State P E → Outcome (CpuError E) ℕ × State P E × H → Type 0
  IsEnded c0 (r, c, h) = IsDone c0 (r, c)

  finish-IsWellFormed :
      {H : Type 0} (c0 : State P E) (r : Outcome (CpuError E) ℕ × State P E × H)
      → IsWellFormed c0
      → IsEnded c0 r
      → IsWellFormed (finish P E r).1
  unfolding finish IsEnded
  finish-IsWellFormed c0 (ok inc, c, h) w e = record {
    has_registers = ground (arith, length-set c.regs 0 0);
    zero_register = get_or-set_self c.regs 0 0 0 (ground arith);
    even_pc = ground arith;
    pc_fits = ground arith;
  }
  finish-IsWellFormed c0 (err e, c, h) w u = IsWellFormed-untouched c0 c w u
  finish-IsWellFormed c0 (panic, c, h) w u = IsWellFormed-untouched c0 c w u

  -- A handler that leaves a well-formed CPU, whatever it returns.
  pub record KeepsWellFormed {H : Type 0} (handle_ecall : Handler P E H) : Type 0 where
    pub keeps : (cpu : State P E) (h : H) → IsWellFormed cpu → IsWellFormed (handle_ecall cpu h).1

  abbrev pub IsAllowed : {H : Type 0} → Option (Handler P E H) → Type 0
  IsAllowed none = Unit
  IsAllowed (some handle_ecall) = KeepsWellFormed handle_ecall

  module _ (cpu : State P E) (w : IsWellFormed cpu) (size : ℕ) (even_size : size % 2 ≡ 0)
      {H : Type 0} (h : H) where
    handled :
        (r : Outcome E (Unit {0}) × State P E × H)
        → IsWellFormed r.1
        → IsWellFormed (finish P E (call_handler P E size (λ c h. r) cpu h)).1
    unfolding call_handler IsEnded
    handled (ok u, c, h) wc =
        finish-IsWellFormed c (ok size, c, h) wc (refl, wc.even_pc, wc.pc_fits, even_size)
    handled (err e, c, h) wc =
        finish-IsWellFormed c (err (CpuError.ecall_error e), c, h) wc (untouched P E c)
    handled (panic, c, h) wc = finish-IsWellFormed c (panic, c, h) wc (untouched P E c)

    call_handler-IsWellFormed :
        (handle_ecall : Handler P E H)
        → KeepsWellFormed handle_ecall
        → IsWellFormed (finish P E (call_handler P E size handle_ecall cpu h)).1
    unfolding call_handler
    call_handler-IsWellFormed handle_ecall k = handled (handle_ecall cpu h) (k.keeps cpu h w)

    dispatch-IsWellFormed :
        (op : Op) (handler : Option (Handler P E H))
        → EvenOffset op
        → IsAllowed handler
        → IsWellFormed (finish P E (dispatch P E op size handler cpu h)).1
    unfolding dispatch IsEnded
    dispatch-IsWellFormed Op.ecall (some handle_ecall) e k =
        call_handler-IsWellFormed handle_ecall k
    dispatch-IsWellFormed op handler e k =
        finish-IsWellFormed cpu _ w (execute_op-Ends cpu size w.even_pc w.pc_fits even_size op e).at

  -- Whatever 32-bit word is executed, and whatever the call returns, a CPU with 32 registers, zero
  -- in register 0 and an even program counter below 2^32 is left with these three, if the handler,
  -- where there is one, keeps them.
  pub execute-IsWellFormed :
      {H : Type 0} (inst : ℕ) (handler : Option (Handler P E H)) (cpu : State P E) (h : H)
      → IsU32 inst
      → IsAllowed handler
      → IsWellFormed cpu
      → IsWellFormed (execute P E inst handler cpu h).1
  unfolding execute
  execute-IsWellFormed inst handler cpu h i k w =
      let (e, even) = decode-HasEvenOffset inst i in
      dispatch-IsWellFormed cpu w (decode inst).1 even h (decode inst).0 handler e.at k
