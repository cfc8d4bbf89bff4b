-- ===== src/Ports/Pipe.antt =====
-- cpp/ipc/message_passing/pipe/twowaypipe.cc: the two-way pipe of task 7 in C++. Its loops are those
-- of the C program, statement for statement, with `getline` for `fgets` and `strtok`, and with no
-- handler of SIGINT; the destructor of `Pipe` closes the ends that are left, in the same order.
pub mod Ending
mod Tests
use posix_intro.Common.{
  ℕ, ◌-◌, ◌≡◌, refl, ℤ, negsuc, pos, eq_ℤ, ◌||◌, Bool, true, false, List, [], replicate,
  if◌then◌else◌,
}
use posix_intro.Common.Channel.{Channel}
use posix_intro.Common.Stdio.{getline_array}
use posix_intro.Pipe.{Role, parent, child, Event, Program, System, Runs}

-- buff_size
abbrev pub buff_size : ℕ
buff_size = 20

-- The prompt of `parent` and of `child`.
abbrev pub cpp_program : Program
cpp_program = record {
  Fills = λ old new.
      (good : Bool) × (stdin : List ℕ) × (new ≡ getline_array (buff_size - 1) old good stdin);
  Fills_total = λ old. (_, (true, [], refl));
  has_handler = false;
}

-- `Pipe::Pipe` throws `std::bad_exception` if either call of `pipe` returns -1.
pub throws_bad_exception : (res1 res2 : ℤ) → Bool
throws_bad_exception res1 res2 = eq_ℤ res1 (negsuc 0) || eq_ℤ res2 (negsuc 0)

-- The function that `Pipe::run` calls where `fork` returns `pid`.
pub run_as : (pid : ℤ) → Role
run_as pid = if eq_ℤ pid (pos 0) then parent else child

-- The runs of both processes; `msg` is zero at first.
abbrev pub PipeRuns : (ch : Channel) → List Event → System cpp_program ch → Type 0
PipeRuns ch es s = Runs cpp_program ch (replicate buff_size 0) (replicate buff_size 0) es s
