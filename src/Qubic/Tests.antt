-- ===== src/Qubic/Tests.antt =====
-- A frame, system information, a work context and a submission at concrete values.
mod Messages
mod Frames
mod Work
mod Solutions
mod Network
use xdna_npu_miner.Prelude.{ℕ, [], ◌∷◌, ◌++◌, replicate, some}
use xdna_npu_miner.Bpp9000.Types.{Bytes, production_shape, settled, ScoreResult}
use xdna_npu_miner.Qubic.Types.{Frame, SystemInfo}
use xdna_npu_miner.Qubic.Work.{TaskIdentity, WorkContext}
use xdna_npu_miner.Qubic.Submission.{SubmissionInput, SigningMaterial}

abbrev pub key_of : ℕ → Bytes
key_of byte = replicate 32 byte

abbrev pub message : Frame
message = record { message_type = 1; dejavu = 7; payload = 5 ∷ 6 ∷ [] }

abbrev pub info : SystemInfo
info = record {
  version = 65535;
  epoch = 180;
  tick = 30000000;
  initial_tick = 29000000;
  latest_created_tick = 30000001;
  initial_millisecond = 999;
  initial_second = 59;
  initial_minute = 30;
  initial_hour = 12;
  initial_day = 24;
  initial_month = 9;
  initial_year = 25;
  number_of_entities = 500000;
  number_of_transactions = 77;
  mining_seed = key_of 9;
  solution_threshold = 4000;
  total_spectrum_amount = 123456789012345;
  current_entity_balance_dust_threshold = 10;
  target_tick_vote_signature = 1;
  computor_packet_signature = 18446744073709551615;
  solution_additional_threshold = 2;
  reserve2 = 0;
  reserve3 = 0;
  reserve4 = 0;
}

abbrev pub task : TaskIdentity
task = record { shape = production_shape; topology_hash = key_of 1; data_hash = key_of 2 }

-- The production shape has 8760 rows.
abbrev pub work : WorkContext
work = record {
  epoch = 180;
  tick = 30000000;
  mining_seed = key_of 9;
  solution_threshold = 4000;
  algorithm = 1;
  task = task;
  window_width = 60;
  max_ticks = 1000;
  number_of_windows = 8700;
}

abbrev pub score : ScoreResult
score = record { score = 3900; status = settled; windows_evaluated = 8700; ticks = 500 }

abbrev pub submission : SubmissionInput
submission = record {
  candidate_context = work;
  candidate_task = task;
  candidate_algorithm = 1;
  source_public_key = key_of 3;
  destination_public_key = key_of 4;
  candidate = record { mining_seed = key_of 9; nonce = 1 ∷ 2 ∷ 0 ∷ replicate 29 7; score = 3900 };
  evidence = record { cpu = score; npu = score };
  signing_material = some (record { public_key = key_of 3; secret = key_of 8 });
  gamming_nonce = key_of 5;
}
