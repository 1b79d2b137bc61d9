-- ===== src/Examples/Main.antt =====
-- examples/cpu/main.cpp: a node whose devices are the CPUs of the computer. The client, by its
-- driver and library, the file /proc/stat as it is read each time, the double arithmetic and sscanf
-- are parameters.
pub mod Rounds
use cpp_sparkplug.Prelude.{
  ℕ, zero, suc, ◌+◌, Bytes, codes, Bool, Option, none, some, List, [], ◌∷◌, ◌++◌, length, ltb, ◌==◌,
  if◌then◌else◌,
}
use cpp_sparkplug.Prelude.Int.{ℤ, pos}
use cpp_sparkplug.Prelude.Text.{to_string}
use cpp_sparkplug.Tahu.{Tahu}
use cpp_sparkplug.Uri
use cpp_sparkplug.Publishable.{Publishable, new_default}
use cpp_sparkplug.Clients.State.{Source, node, device, ClientOptions, ClientTopicOptions}
use cpp_sparkplug.Clients
use cpp_sparkplug.Node.World.{Driver, World, SparkplugClientMode, M, ◌>>=◌, ◌>>◌, pure}
use cpp_sparkplug.Node.Setup.{NodeOptions, enable, add_device, add_client}
use cpp_sparkplug.Node.Setup
use cpp_sparkplug.Node.Events.{is_active, sync, execute}
use cpp_sparkplug.Examples.Cpu.{Double, Reading, Cpu, get_cpus, update_values}

-- Argument i, or what stands for it; sprintf into 256 bytes faults on an argument that does not fit.
unfoldable pub argument : ℕ → Bytes → List Bytes → Option Bytes
argument i default [] = some default
argument zero default (a ∷ argv) = if ltb (length a) 256 then some a else none
argument (suc i) default (a ∷ argv) = argument i default argv

-- The options, from the arguments after the program's name, and the number of rand().
unfoldable pub read_options : ℕ → List Bytes → Option (NodeOptions × ClientOptions)
unfolding argument Uri.init
read_options random argv = elim (argument 0 (codes "Examples") argv) [
  | none ↦ none
  | some group ↦ elim (argument 1 (codes "Computer") argv) [
    | none ↦ none
    | some name ↦ elim (argument 2 (codes "tcp://localhost:1883") argv) [
      | none ↦ none
      | some address ↦
          elim (argument 3 (codes "sparkplug_client_" ++ to_string (pos random)) argv) [
            | none ↦ none
            | some client_id ↦ elim (Uri.init address) [
              | none ↦ none
              | some uri ↦ some (
                record {
                  group_id = group;
                  node_id = name;
                  primary_host = [];
                  publish_period = pos 1000;
                  enabled_commands = 1;
                },
                record {
                  address = uri;
                  client_id = client_id;
                  username = none;
                  password = none;
                  connect_timeout = 1000;
                  keep_alive_interval = 15;
                },
              )
            ]
          ]
    ]
  ]
]

abbrev pub max_retries : ℕ
max_retries = 400

-- The publishables of the node and of the CPUs, by their numbers.
abbrev pub store : Publishable → List (Cpu × Publishable) → Source → Publishable
store p cpus node = p
store p [] (device i) = new_default
store p ((c, q) ∷ cpus) (device i) = if c.number == i then q else store p cpus (device i)

abbrev pub add_devices : {S P : Type 0} → List (Cpu × Publishable) → World S P → World S P
add_devices [] w = w
add_devices ((c, q) ∷ cpus) w = add_devices cpus (add_device c.number w)

abbrev pub members : List (Cpu × Publishable) → List Cpu
members [] = []
members ((c, q) ∷ cpus) = c ∷ members cpus

pub record Program (S P : Type 0) : Type 0 where
  pub world : World S P
  pub cpus : List Cpu

module _ (t : Tahu) {S D : Type 0} (driver : Driver S) (d : Double D)
    (scan : Bytes → Reading → Option Reading) (unset : Reading) (file : ℕ → List Bytes)
    (times : ℕ → ℕ → ℕ) (waiting meanwhile : ℕ → M S t.PayloadMetric (Unit {0})) (fuel : ℕ) where
  -- CPU::updateValues, reading the file for the i-th time
  unfoldable pub measure : ℕ → Program S t.PayloadMetric → Option (Program S t.PayloadMetric)
  unfolding update_values
  measure i p = elim (update_values d scan (times i) (file i) 0 unset p.cpus p.world.publishables) [
    | none ↦ none
    | some (cs, ps) ↦ some (record { world = record (p.world) { publishables = ps }; cpus = cs })
  ]

  -- The node with its devices and its client, before it is enabled.
  unfoldable pub set_up :
      SparkplugClientMode
      → ℕ
      → ClientTopicOptions
      → S
      → (ℕ → ℕ)
      → NodeOptions
      → Option (Program S t.PayloadMetric)
  unfolding get_cpus measure add_client Clients.new add_device
  set_up mode unset_memory no_topics library clock options =
      let (n, p) = Setup.new mode unset_memory (some options) in
      elim (get_cpus d fuel (file 0) []) [
        | none ↦ none
        | some cpus ↦
            let w : World S t.PayloadMetric = record {
              node = n;
              clients = [];
              publishables = store p cpus;
              clock = clock;
              calls = [];
            } in
            elim (measure 1 (record { world = add_devices cpus w; cpus = members cpus })) [
              | none ↦ none
              | some q ↦
                  some (record q { world = add_client (Clients.new no_topics, library) q.world })
            ]
      ]

  -- The loop that waits for the node, with the retries that are left; `waiting` are the callbacks
  -- during its sleeps.
  unfoldable pub wait_active : ℕ → M S t.PayloadMetric (Unit {0})
  wait_active zero = is_active t driver fuel >> pure tt
  wait_active (suc retries) = do
    active ← is_active t driver fuel
    if active then pure tt else (sync t driver fuel >> waiting retries >> wait_active retries)

  -- One round of the endless loop; `meanwhile` are the callbacks during its sleep.
  unfoldable pub round : ℕ → Program S t.PayloadMetric → Option (Program S t.PayloadMetric)
  round i p = elim (measure i p) [
    | none ↦ none
    | some q ↦ elim ((execute t driver fuel (pos 1000) >> meanwhile i) q.world) [
      | none ↦ none
      | some (w, done) ↦ some (record q { world = w })
    ]
  ]

  unfoldable pub run_rounds : ℕ → ℕ → Program S t.PayloadMetric → Option (Program S t.PayloadMetric)
  unfolding round
  run_rounds zero i p = some p
  run_rounds (suc rounds) i p = elim (round i p) [
    | none ↦ none
    | some q ↦ run_rounds rounds (i + 1) q
  ]

  -- What main does once the node has its devices and its client, with the first rounds of its loop.
  unfoldable pub main : ℕ → Program S t.PayloadMetric → Option (Program S t.PayloadMetric)
  unfolding run_rounds wait_active
  main rounds p = elim ((enable driver >> wait_active max_retries) p.world) [
    | none ↦ none
    | some (w, done) ↦ run_rounds rounds 2 (record p { world = w })
  ]
