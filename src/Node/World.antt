-- ===== src/Node/World.antt =====
-- src/Node.h: the state of a node with its clients, devices and event queue; and SparkplugClient as the
-- node sees it, an interface that each client implements. Clients and devices are named by numbers.
use cpp_sparkplug.Prelude.{ℕ, zero, suc, Bytes, Bool, Option, none, some, List, [], ◌∷◌, ◌++◌}
use cpp_sparkplug.Prelude.Int.{ℤ}
use cpp_sparkplug.Metric.{Call}
use cpp_sparkplug.Publishable.{Publishable}
use cpp_sparkplug.Clients.State.{Source, PublishRequest, Event, ClientTopicOptions}
use cpp_sparkplug.Clients.{Client, Context, put}

-- The methods of a client that the node calls. `none` is a call that does not return within its fuel,
-- or a fault.
pub record Driver (S : Type 0) : Type 0 where
  pub configure : Option ClientTopicOptions → Context S → Context S × ℤ
  pub activate : Context S → Context S × ℤ
  pub deactivate : Context S → Context S × ℤ
  pub disconnect : Context S → Context S × ℤ
  pub execute : Context S → Option (Context S)
  pub request : PublishRequest → Context S → Option (Context S)
  pub is_connected : Context S → Bool
  -- The destructor, with what it still tells the node.
  pub destroy : Context S → Context S

pub data SparkplugClientMode : Type 0 where
  single primary_host : SparkplugClientMode

pub record Node : Type 0 where
  pub group_base_topic : Bytes
  pub node_id : Bytes
  pub client_topics : ClientTopicOptions
  pub topics_configured : Bool
  pub running : Bool
  pub enabled : Bool
  pub active_client : Option ℕ
  pub host_mode : SparkplugClientMode
  -- The head is the device that was added last, as in the forward_list.
  pub devices : List ℕ
  pub event_queue : List (ℕ × Event)

-- The node, its clients, the publishables, the times that will be read, and the calls made to the
-- command handlers and callbacks so far, where P is the type of a received metric.
pub record World (S P : Type 0) : Type 0 where
  pub node : Node
  pub clients : List (Client × S)
  pub publishables : Source → Publishable
  pub clock : ℕ → ℕ
  pub calls : List (Call P)

-- State with failure: `none` is a fault of the program, such as a NULL pointer that is followed, or a
-- loop out of fuel.
abbrev pub M : Type 0 → Type 0 → Type 0 → Type 0
M S P A = World S P → Option (World S P × A)

infixl 5 ◌>>=◌ ◌>>◌
abbrev pub ◌>>=◌ : {S P A B : Type 0} → M S P A → (A → M S P B) → M S P B
◌>>=◌ m f w = elim (m w) [ none ↦ none | some (w', a) ↦ f a w' ]

abbrev pub ◌>>◌ : {S P A B : Type 0} → M S P A → M S P B → M S P B
◌>>◌ m n w = elim (m w) [ none ↦ none | some (w', a) ↦ n w' ]

abbrev pub get_client : {S : Type 0} → ℕ → List (Client × S) → Option (Client × S)
get_client i [] = none
get_client zero (k ∷ ks) = some k
get_client (suc i) (k ∷ ks) = get_client i ks

abbrev pub set_client : {S : Type 0} → ℕ → Client × S → List (Client × S) → List (Client × S)
set_client i k' [] = []
set_client zero k' (k ∷ ks) = k' ∷ ks
set_client (suc i) k' (k ∷ ks) = k ∷ set_client i k' ks

-- The events of client i, as onEvent queues them.
abbrev pub tagged : ℕ → List Event → List (ℕ × Event)
tagged i [] = []
tagged i (e ∷ es) = (i, e) ∷ tagged i es

abbrev pub always :
    {S A : Type 0} → (Context S → Context S × A) → Context S → Option (Context S × A)
always f c = some (f c)

abbrev pub no_result :
    {S : Type 0} → (Context S → Option (Context S)) → Context S → Option (Context S × Unit {0})
no_result f c = elim (f c) [ none ↦ none | some c' ↦ some (c', tt) ]

module _ {S P : Type 0} where
  abbrev pub pure : {A : Type 0} → A → M S P A
  pure a w = some (w, a)

  abbrev pub fault : {A : Type 0} → M S P A
  fault w = none

  abbrev pub read : {A : Type 0} → (World S P → A) → M S P A
  read f w = some (w, f w)

  abbrev pub modify : (World S P → World S P) → M S P (Unit {0})
  modify f w = some (f w, tt)

  abbrev pub modify_node : (Node → Node) → M S P (Unit {0})
  modify_node f = modify (λ w. record w { node = f w.node })

  abbrev pub modify_publishable : Source → (Publishable → Publishable) → M S P (Unit {0})
  modify_publishable s f =
      modify (λ w. record w { publishables = put w.publishables s (f (w.publishables s)) })

  abbrev pub context : World S P → Client × S → Context S
  context w (k, s) = record {
    client = k;
    library = s;
    events = [];
    publishables = w.publishables;
    clock = w.clock;
  }

  -- onEvent appends each event of the call to the queue, with the client that it is from.
  abbrev pub leave : ℕ → Context S → World S P → World S P
  leave i c w = record w {
    node = record (w.node) { event_queue = w.node.event_queue ++ tagged i c.events };
    clients = set_client i (c.client, c.library) w.clients;
    publishables = c.publishables;
    clock = c.clock;
  }

  -- A method of client i; a pointer to no client is a fault.
  unfoldable pub with_client : {A : Type 0} → ℕ → (Context S → Option (Context S × A)) → M S P A
  with_client i f w = elim (get_client i w.clients) [
    | none ↦ none
    | some k ↦ elim (f (context w k)) [ none ↦ none | some (c, a) ↦ some (leave i c w, a) ]
  ]

-- class Publisher, which a publishable asks for a message of its own
pub record Publisher (S P : Type 0) : Type 0 where
  pub request : Source → Bool → M S P (Unit {0})
