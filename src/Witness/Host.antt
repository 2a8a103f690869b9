-- ===== src/Witness/Host.antt =====
-- The theorems on native/host.c and native/pipe.c, applied.
use jev_fabric.Base.{ℕ, ◌≡◌, refl, ◌≤◌, ◌+◌, false, List, [], none, some, length}
use jev_fabric.Os.{Event, Returns, held}
use jev_fabric.Pipe.{
  jf_pipe, both_ends, jf_pipe-held, handed, native_pipe_run, native_pipe_run-held,
}
use jev_fabric.Host.Names.{
  codes, jfh_id, is_hex, temp_name, length-temp_name, jfh_leaf, jfh_leaf-temp_name,
}
use jev_fabric.Host.Directory.{holding, jfh_dir, jfh_dir-held}
use jev_fabric.Host.Files.{
  Named, jfh_random, jfh_random-Named, Loaded, jfh_read_file, jfh_read_file-Loaded,
}
use jev_fabric.Host.Call.{Request, op_create, jfh_call, jfh_call-held, kept}
use jev_fabric.Witness.Toy.{toy, toy-IsLawful, booted}

abbrev create_job : Request
create_job = record { op = op_create; limit = 16; id = []; name = []; text = []; argv = [] }

jfh_call-held_example :
    Returns
      (jfh_call toy none create_job booted)
      (λ r t. held t.log ≡ some (holding (kept none r.1) []))
jfh_call-held_example = jfh_call-held toy toy-IsLawful none create_job booted [] refl

jfh_read_file-Loaded_example :
    Returns (jfh_read_file toy 3 (codes "state") 64 booted) (Loaded 64 [] [])
jfh_read_file-Loaded_example =
    jfh_read_file-Loaded toy toy-IsLawful 3 (codes "state") 64 booted [] refl

abbrev blank : List Event → Unit {0}
blank _ = tt

jfh_random-Named_example : Returns (jfh_random toy booted) (Named blank tt [])
jfh_random-Named_example =
    jfh_random-Named toy toy-IsLawful blank tt (λ e log q. refl) [] booted refl refl

abbrev id_text : List ℕ
id_text = codes "0123456789abcdef0123456789abcdef"

jfh_dir-held_example :
    Returns (jfh_dir toy id_text booted) (λ r t. held t.log ≡ some (holding r []))
jfh_dir-held_example = jfh_dir-held toy id_text booted refl

native_pipe_run-held_example :
    Returns (native_pipe_run toy booted) (λ r t. held t.log ≡ some (handed r []))
native_pipe_run-held_example = native_pipe_run-held toy booted [] refl

jf_pipe-held_example : Returns (jf_pipe toy booted) (λ r t. held t.log ≡ some (both_ends r []))
jf_pipe-held_example = jf_pipe-held toy booted [] refl

length-temp_name_example : length (temp_name id_text) + 1 ≤ 40
unfolding jfh_id is_hex
length-temp_name_example = length-temp_name id_text refl

jfh_leaf-temp_name_example : jfh_leaf (temp_name id_text) ≡ false
jfh_leaf-temp_name_example = jfh_leaf-temp_name id_text
