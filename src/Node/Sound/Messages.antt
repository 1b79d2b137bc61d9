-- ===== src/Node/Sound/Messages.antt =====
-- src/Node.cpp: the messages of the clients, and the commands in them, keep the node sound.
use cpp_sparkplug.Prelude.{
  ℕ, ◌+◌, ◌-◌, ◌^◌, ◌%◌, Bytes, codes, Bool, true, false, not, null, same, ltb, length, drop, some,
  List, [], ◌∷◌,
}
use cpp_sparkplug.Prelude.Text.{contains}
use cpp_sparkplug.Tahu.{Tahu}
use cpp_sparkplug.Metric.{Call, to_handler, to_callback, rebirth, user}
use cpp_sparkplug.Publishable.{handle_command}
use cpp_sparkplug.Clients.State.{Source, node, device}
use cpp_sparkplug.Node.World.{Driver, World}
use cpp_sparkplug.Node.Publishing.{same_client}
use cpp_sparkplug.Node.Events.{find_device, perform, command, commands, host_state, on_message}
use cpp_sparkplug.Node.Contract.{Conserves}
use cpp_sparkplug.Node.Sound.{
  Sound, Leads, Leads-some, Leads-none, Leads-then, Leads-if, Leads-elim,
}
use cpp_sparkplug.Node.Sound.Publishing.{
  publish_birth-Sound, activate_client-Sound, deactivate_client-Sound,
}

module _ (t : Tahu) {S : Type 0} (driver : Driver S) (conserves : Conserves driver)
    {on : Bool} where
  -- A change of what was called so far.
  called-Sound :
      (w : World S t.PayloadMetric) (l : List (Call t.PayloadMetric))
      → Sound on [] w
      → Sound on [] (record w { calls = l })
  called-Sound w l h = record {
    enabled_lem = h.enabled_lem;
    waiting_lem = h.waiting_lem;
    timed_lem = h.timed_lem;
  }

  perform-Sound :
      (calls : List (Call t.PayloadMetric)) (w : World S t.PayloadMetric)
      → Sound on [] w
      → Leads on [] (perform t driver calls w)
  unfolding perform
  perform-Sound [] w h = Leads-some w tt h
  perform-Sound (to_handler f p ∷ rest) w h = perform-Sound rest _ (called-Sound w _ h)
  perform-Sound (to_callback (user f) p ∷ rest) w h = perform-Sound rest _ (called-Sound w _ h)
  perform-Sound (to_callback rebirth p ∷ rest) w h =
      Leads-then
        (Leads-then
          (Leads-if (t.boolean_value p) _ _ w (publish_birth-Sound driver conserves w h)
            (Leads-some w tt h))
          (λ x q. Leads-some _ tt (called-Sound x.0 _ q)))
        (λ x q. perform-Sound rest x.0 q)

  command-Sound :
      (s : Source) (payload : Bytes) (w : World S t.PayloadMetric)
      → Sound on [] w
      → Leads on [] (command t driver s payload w)
  unfolding command
  command-Sound s payload w h =
      Leads-elim (handle_command t payload (w.publishables s)) _ _ w Leads-none
        (λ calls. perform-Sound calls w h)

  commands-Sound :
      (topic payload : Bytes) (w : World S t.PayloadMetric)
      → Sound on [] w
      → Leads on [] (commands t driver topic payload w)
  unfolding commands
  commands-Sound topic payload w h =
      let n = w.node in
      let goes_on : Leads on [] (some (w, true)) = Leads-some w true h in
      let size = (length n.client_topics.device_command_topic + 2 ^ 64 - 1) % 2 ^ 64 in
      Leads-if (contains (codes "NCMD") topic) _ _ w
        (Leads-if (same topic n.client_topics.node_command_topic) _ _ w
          (Leads-then (command-Sound node payload w h) (λ x p. Leads-some x.0 true p)) goes_on)
        (Leads-if (not (contains (codes "DCMD") topic)) _ _ w goes_on (
          Leads-if (null n.devices) _ _ w (Leads-some w false h) (
            Leads-if (not (ltb size (length topic))) _ _ w goes_on (
              Leads-elim (find_device w.publishables (drop size topic) n.devices) _ _ w Leads-none
                (λ found. Leads-elim found _ _ w goes_on (λ d.
                  Leads-then (command-Sound (device d) payload w h)
                    (λ x p. Leads-some x.0 true p)))))))

  host_state-Sound :
      (i : ℕ) (topic payload : Bytes) (w : World S t.PayloadMetric)
      → Sound on [] w
      → Leads on [] (host_state t driver i topic payload w)
  unfolding host_state
  host_state-Sound i topic payload w h =
      let n = w.node in
      let same_world : Leads on [] (some (w, tt)) = Leads-some w tt h in
      let mine = same_client n.active_client (some i) in
      Leads-if (null n.client_topics.primary_host_topic) _ _ w same_world (
        Leads-if (not (same topic n.client_topics.primary_host_topic)) _ _ w same_world (
          Leads-if (contains (codes "\"online\": true") payload) _ _ w
            (Leads-if mine _ _ w same_world (activate_client-Sound driver conserves i w h))
            (Leads-if (contains (codes "\"online\": false") payload) _ _ w
              (Leads-if mine _ _ w (deactivate_client-Sound driver conserves i w h) same_world)
              same_world)))

  pub on_message-Sound :
      (i : ℕ) (topic payload : Bytes) (w : World S t.PayloadMetric)
      → Sound on [] w
      → Leads on [] (on_message t driver i topic payload w)
  unfolding on_message
  on_message-Sound i topic payload w h =
      Leads-then
        (Leads-if (same_client (some i) w.node.active_client) _ _ w
          (commands-Sound topic payload w h) (Leads-some w true h))
        (λ x p. Leads-if x.1 _ _ x.0 (host_state-Sound i topic payload x.0 p) (Leads-some x.0 tt p))
