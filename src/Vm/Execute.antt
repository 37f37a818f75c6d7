-- ===== src/Vm/Execute.antt =====
-- One instruction: `Cpu::execute` of common/src/vm.rs.
pub mod Registers
pub mod Errors
pub mod Arithmetic
mod Examples
use vanadium.Prelude.{ℕ, ◌==◌, not, leb, ltb, bit_and, bit_or, bit_xor, String}
use vanadium.Prelude.{Option, some, Outcome, ok, err, panic}
use vanadium.Word.{sar32, shl32, wrapping_add, wrapping_sub, wrapping_mul, lt_signed}
use vanadium.Vm.Error.{CpuError}
use vanadium.Vm.Memory.{PagedMemory}
use vanadium.Vm.Cpu.{Exec, set_reg}
use vanadium.Vm.Alu
use vanadium.Vm.Arm
use vanadium.Vm.Arm.{State}
use vanadium.Riscv.Op.{Op}
use vanadium.Riscv.Decode.{decode}

-- `value as i8 as i32 as u32` and `value as i16 as i32 as u32`
abbrev extend_i8 : ℕ → ℕ
extend_i8 v = sar32 (shl32 v 24) 24

abbrev extend_i16 : ℕ → ℕ
extend_i16 v = sar32 (shl32 v 16) 16

abbrev same : ℕ → ℕ
same v = v

module _ (P : PagedMemory) (E : Type 0) where
  abbrev generic : {A : Type 0} → String → Exec P E A
  generic message cpu = (err (CpuError.generic_error message), cpu)

  -- The match on the instruction; the call of the handler is in `dispatch`.
  pub execute_op : Op → ℕ → Exec P E ℕ
  execute_op (Op.add rd rs1 rs2) size = Arm.binary P E size wrapping_add rd rs1 rs2
  execute_op (Op.sub rd rs1 rs2) size = Arm.binary P E size wrapping_sub rd rs1 rs2
  execute_op (Op.sll rd rs1 rs2) size = Arm.binary P E size Alu.sll rd rs1 rs2
  execute_op (Op.slt rd rs1 rs2) size = Arm.binary P E size Alu.slt rd rs1 rs2
  execute_op (Op.sltu rd rs1 rs2) size = Arm.binary P E size Alu.sltu rd rs1 rs2
  execute_op (Op.xor rd rs1 rs2) size = Arm.binary P E size bit_xor rd rs1 rs2
  execute_op (Op.srl rd rs1 rs2) size = Arm.binary P E size Alu.srl rd rs1 rs2
  execute_op (Op.sra rd rs1 rs2) size = Arm.binary P E size Alu.sra rd rs1 rs2
  execute_op (Op.or rd rs1 rs2) size = Arm.binary P E size bit_or rd rs1 rs2
  execute_op (Op.and rd rs1 rs2) size = Arm.binary P E size bit_and rd rs1 rs2
  execute_op (Op.mul rd rs1 rs2) size = Arm.binary P E size wrapping_mul rd rs1 rs2
  execute_op (Op.mulh rd rs1 rs2) size = Arm.binary P E size Alu.mulh rd rs1 rs2
  execute_op (Op.mulhsu rd rs1 rs2) size = Arm.binary P E size Alu.mulhsu rd rs1 rs2
  execute_op (Op.mulhu rd rs1 rs2) size = Arm.binary P E size Alu.mulhu rd rs1 rs2
  execute_op (Op.div rd rs1 rs2) size = Arm.binary P E size Alu.div rd rs1 rs2
  execute_op (Op.divu rd rs1 rs2) size = Arm.binary P E size Alu.divu rd rs1 rs2
  execute_op (Op.rem rd rs1 rs2) size = Arm.binary P E size Alu.rem rd rs1 rs2
  execute_op (Op.remu rd rs1 rs2) size = Arm.binary P E size Alu.remu rd rs1 rs2
  execute_op (Op.addi rd rs1 imm) size = Arm.immediate P E size wrapping_add rd rs1 imm
  execute_op (Op.andi rd rs1 imm) size = Arm.immediate P E size bit_and rd rs1 imm
  execute_op (Op.auipc rd imm) size = Arm.auipc P E size rd imm
  execute_op (Op.beq rs1 rs2 imm) size = Arm.branch P E size ◌==◌ rs1 rs2 imm
  execute_op (Op.bne rs1 rs2 imm) size = Arm.branch P E size (λ a b. not (a == b)) rs1 rs2 imm
  execute_op (Op.blt rs1 rs2 imm) size = Arm.branch P E size lt_signed rs1 rs2 imm
  execute_op (Op.bge rs1 rs2 imm) size =
      Arm.branch P E size (λ a b. not (lt_signed a b)) rs1 rs2 imm
  execute_op (Op.bltu rs1 rs2 imm) size = Arm.branch P E size ltb rs1 rs2 imm
  execute_op (Op.bgeu rs1 rs2 imm) size = Arm.branch P E size (λ a b. leb b a) rs1 rs2 imm
  execute_op (Op.jal rd imm) size = Arm.jal P E size rd imm
  execute_op (Op.jalr rd rs1 imm) size = Arm.jalr P E size rd rs1 imm
  execute_op (Op.lb rd rs1 imm) size = Arm.load_u8 P E size extend_i8 rd rs1 imm
  execute_op (Op.lh rd rs1 imm) size = Arm.load_u16 P E size extend_i16 rd rs1 imm
  execute_op (Op.lw rd rs1 imm) size = Arm.load_u32 P E size rd rs1 imm
  execute_op (Op.lbu rd rs1 imm) size = Arm.load_u8 P E size same rd rs1 imm
  execute_op (Op.lhu rd rs1 imm) size = Arm.load_u16 P E size same rd rs1 imm
  execute_op (Op.lui rd imm) size = Arm.lui P E size rd imm
  execute_op (Op.ori rd rs1 imm) size = Arm.immediate P E size bit_or rd rs1 imm
  execute_op (Op.sb rs1 rs2 imm) size = Arm.store_u8 P E size rs1 rs2 imm
  execute_op (Op.sh rs1 rs2 imm) size = Arm.store_u16 P E size rs1 rs2 imm
  execute_op (Op.sw rs1 rs2 imm) size = Arm.store_u32 P E size rs1 rs2 imm
  execute_op (Op.slli rd rs1 imm) size = Arm.immediate P E size Alu.sll rd rs1 imm
  execute_op (Op.slti rd rs1 imm) size = Arm.immediate P E size Alu.slt rd rs1 imm
  execute_op (Op.sltiu rd rs1 imm) size = Arm.immediate P E size Alu.sltu rd rs1 imm
  execute_op (Op.srli rd rs1 imm) size = Arm.immediate P E size Alu.srl rd rs1 imm
  execute_op (Op.srai rd rs1 imm) size = Arm.immediate P E size Alu.sra rd rs1 imm
  execute_op (Op.xori rd rs1 imm) size = Arm.immediate P E size bit_xor rd rs1 imm
  execute_op (Op.lr_w rd rs1) size = Arm.load_reserved P E size rd rs1
  execute_op (Op.sc_w rd rs1 rs2) size = Arm.store_conditional P E size rd rs1 rs2
  execute_op (Op.amoswap_w rd rs1 rs2) size =
      Arm.amo P E size "Unaligned AMOSWAP.W address" (λ old value. value) rd rs1 rs2
  execute_op (Op.amoadd_w rd rs1 rs2) size =
      Arm.amo P E size "Unaligned AMOADD.W address" wrapping_add rd rs1 rs2
  execute_op (Op.amoxor_w rd rs1 rs2) size =
      Arm.amo P E size "Unaligned AMOXOR.W address" bit_xor rd rs1 rs2
  execute_op (Op.amoand_w rd rs1 rs2) size =
      Arm.amo P E size "Unaligned AMOAND.W address" bit_and rd rs1 rs2
  execute_op (Op.amoor_w rd rs1 rs2) size =
      Arm.amo P E size "Unaligned AMOOR.W address" bit_or rd rs1 rs2
  execute_op (Op.amomin_w rd rs1 rs2) size =
      Arm.amo P E size "Unaligned AMOMIN.W address" Alu.min_signed rd rs1 rs2
  execute_op (Op.amomax_w rd rs1 rs2) size =
      Arm.amo P E size "Unaligned AMOMAX.W address" Alu.max_signed rd rs1 rs2
  execute_op (Op.amominu_w rd rs1 rs2) size =
      Arm.amo P E size "Unaligned AMOMINU.W address" Alu.min_unsigned rd rs1 rs2
  execute_op (Op.amomaxu_w rd rs1 rs2) size =
      Arm.amo P E size "Unaligned AMOMAXU.W address" Alu.max_unsigned rd rs1 rs2
  execute_op Op.fence size = Arm.fence P E size
  execute_op Op.ecall size = generic "No ECALL handler"
  execute_op Op.break size = generic "BREAK instruction is not supported"
  execute_op Op.unknown size = generic "Unknown instruction"

  -- The last two lines of `execute`, which an error skips.
  pub finish :
      {H : Type 0}
      → Outcome (CpuError E) ℕ × State P E × H
      → Outcome (CpuError E) (Unit {0}) × State P E × H
  finish (ok pc_inc, cpu, h) =
      (ok tt, set_reg 0 0 (record cpu { pc = wrapping_add cpu.pc pc_inc }), h)
  finish (err e, cpu, h) = (err e, cpu, h)
  finish (panic, cpu, h) = (panic, cpu, h)

  -- `handle_ecall`, over the state of the handler.
  abbrev pub Handler : Type 0 → Type 0
  Handler H = State P E → H → Outcome E (Unit {0}) × State P E × H

  pub call_handler :
      {H : Type 0} → ℕ → Handler H → State P E → H → Outcome (CpuError E) ℕ × State P E × H
  call_handler size handle_ecall cpu h =
      let (r, cpu', h') = handle_ecall cpu h in (with_size r, cpu', h')
    where
      with_size : Outcome E (Unit {0}) → Outcome (CpuError E) ℕ
      with_size (ok u) = ok size
      with_size (err e) = err (CpuError.ecall_error e)
      with_size panic = panic

  pub dispatch :
      {H : Type 0}
      → Op
      → ℕ
      → Option (Handler H)
      → State P E
      → H
      → Outcome (CpuError E) ℕ × State P E × H
  dispatch Op.ecall size (some handle_ecall) cpu h = call_handler size handle_ecall cpu h
  dispatch op size handler cpu h = let (r, cpu') = execute_op op size cpu in (r, cpu', h)

  pub execute :
      {H : Type 0}
      → ℕ
      → Option (Handler H)
      → State P E
      → H
      → Outcome (CpuError E) (Unit {0}) × State P E × H
  execute inst ecall_handler cpu h =
      let (op, inst_size) = decode inst in finish (dispatch op inst_size ecall_handler cpu h)
