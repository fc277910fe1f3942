-- ===== src/Offboard/Setpoints.antt =====
-- Which setpoints plugins/offboard/offboard_impl.cpp sends after a velocity was set.
use stealth_drone_purdue.Base.{
  ℕ, ◌≡◌, ◌^◌, ◌%◌, refl, sym, ◌∙◌, ap, ◌&&◌, List, [], ◌∷◌, ◌++◌, Option, none, some, ◌==◌,
  if◌then◌else◌, arith, Option-cases, Bool-cases, inl, inr, append-nil, append_assoc,
}
use stealth_drone_purdue.StdMap.{find}
use stealth_drone_purdue.Mavlink.{Float32, zero_f}
use stealth_drone_purdue.Offboard.{
  Offboard, not_active, velocity_ned, Velocity, PositionTarget, Periodic, sends_velocity_ned,
  sends_velocity_body, other_call, Moment, send, switch_to, reschedule, ned_message,
  send_velocity_ned, set_velocity_ned, periodic, tick, ned_mask, frame_local_ned,
}
use stealth_drone_purdue.Offboard.Streaming.{
  IsStreaming, IsFresh, entry_mode, mode_of, set_velocity_ned-IsStreaming,
}

module _ (to_rad_from_deg : Float32 → Float32) where
  -- A velocity in the local frame, as a message to the autopilot.
  abbrev pub setpoint : (system_id autopilot_id : ℕ) → Velocity → Moment → PositionTarget
  setpoint system_id autopilot_id v e = record {
    time_boot_ms = e.boot_ms % 2 ^ 32;
    target_system = system_id;
    target_component = autopilot_id;
    coordinate_frame = frame_local_ned;
    type_mask = ned_mask;
    x = zero_f;
    y = zero_f;
    z = zero_f;
    vx = v.first_m_s;
    vy = v.second_m_s;
    vz = v.down_m_s;
    afx = zero_f;
    afy = zero_f;
    afz = zero_f;
    yaw = to_rad_from_deg v.yaw_deg;
    yaw_rate = zero_f;
  }

  abbrev pub tick_all : List (Moment × ℕ) → Offboard → Offboard
  tick_all [] o = o
  tick_all ((e, cookie) ∷ ticks) o = tick_all ticks (tick to_rad_from_deg e cookie o)

  -- One setpoint for each time that the entry under `cookie` is due and a connection is there.
  abbrev pub setpoints :
      (cookie : ℕ) → (Moment → PositionTarget) → List (Moment × ℕ) → List PositionTarget
  setpoints cookie message [] = []
  setpoints cookie message ((e, k) ∷ ticks) =
      (if e.connected && (k == cookie) then message e ∷ [] else [])
      ++ setpoints cookie message ticks

  periodic_ned :
      (e : Moment) (callback : Option Periodic) (o : Offboard)
      → mode_of callback ≡ velocity_ned
      → periodic to_rad_from_deg e callback o ≡ send e (ned_message to_rad_from_deg e o) o
  unfolding periodic send_velocity_ned
  periodic_ned e none o m = ground arith
  periodic_ned e (some sends_velocity_ned) o m = refl
  periodic_ned e (some sends_velocity_body) o m = ground arith
  periodic_ned e (some (other_call n)) o m = ground arith

  periodic_none :
      (e : Moment) (callback : Option Periodic) (o : Offboard)
      → mode_of callback ≡ not_active
      → periodic to_rad_from_deg e callback o ≡ o
  unfolding periodic
  periodic_none e none o m = refl
  periodic_none e (some sends_velocity_ned) o m = ground arith
  periodic_none e (some sends_velocity_body) o m = ground arith
  periodic_none e (some (other_call n)) o m = refl

  tick_ned :
      (e : Moment) (k : ℕ) (o : Offboard)
      → IsStreaming o
      → o.mode ≡ velocity_ned
      → tick to_rad_from_deg e k o
        ≡ (if k == o.call_every_cookie then send e (ned_message to_rad_from_deg e o) o else o)
  unfolding tick
  tick_ned e k o (entries, off, on) m = elim (Bool-cases (k == o.call_every_cookie)) [
    | inl own ↦
        let is : entry_mode (find k o.call_every_handler.entries) ≡ velocity_ned =
          entries k ∙ rw (own, m) refl in
        elim (Option-cases (find k o.call_every_handler.entries)) [
          | inl f ↦ ground arith
          | inr (entry, f) ↦
              rw (own, tick, f) (periodic_ned e entry.callback o (sym (ap entry_mode f) ∙ is))
        ]
    | inr foreign ↦
        let is : entry_mode (find k o.call_every_handler.entries) ≡ not_active =
          entries k ∙ rw foreign refl in
        elim (Option-cases (find k o.call_every_handler.entries)) [
          | inl f ↦ rw (foreign, tick, f) refl
          | inr (entry, f) ↦
              rw (foreign, tick, f) (periodic_none e entry.callback o (sym (ap entry_mode f) ∙ is))
        ]
  ]

  tick_sends :
      (e : Moment) (k : ℕ) (v : Velocity) (o : Offboard)
      → IsStreaming o
      → o.mode ≡ velocity_ned
      → o.velocity_ned_yaw ≡ v
      → tick to_rad_from_deg e k o ≡ record o {
        outbox =
            o.outbox
            ++ (if e.connected && (k == o.call_every_cookie)
                then setpoint o.system_id o.autopilot_id v e ∷ []
                else []);
      }
  unfolding send ned_message
  tick_sends e k v o streaming m is =
      tick_ned e k o streaming m ∙ elim (Bool-cases (k == o.call_every_cookie)) [
        | inl own ↦ elim (Bool-cases e.connected) [
          | inl on ↦ ground (arith, append-nil o.outbox)
          | inr off ↦ ground (arith, append-nil o.outbox)
        ]
        | inr foreign ↦ ground (arith, append-nil o.outbox)
      ]

  -- What setting a velocity does, whatever the mode was.
  set_velocity_ned_lem :
      (e : Moment) (v : Velocity) (o : Offboard)
      → ((set_velocity_ned to_rad_from_deg e v o).mode ≡ velocity_ned)
        × ((set_velocity_ned to_rad_from_deg e v o).velocity_ned_yaw ≡ v)
        × ((set_velocity_ned to_rad_from_deg e v o).outbox
            ≡ o.outbox
              ++ (if e.connected then setpoint o.system_id o.autopilot_id v e ∷ [] else []))
        × ((set_velocity_ned to_rad_from_deg e v o).system_id ≡ o.system_id)
        × ((set_velocity_ned to_rad_from_deg e v o).autopilot_id ≡ o.autopilot_id)
  unfolding set_velocity_ned send_velocity_ned send ned_message switch_to reschedule
  set_velocity_ned_lem e v o = ground (arith, append-nil o.outbox)

  tick_all_lem :
      (ticks : List (Moment × ℕ)) (v : Velocity) (o : Offboard)
      → IsStreaming o
      → o.mode ≡ velocity_ned
      → o.velocity_ned_yaw ≡ v
      → (tick_all ticks o).outbox
        ≡ o.outbox ++ setpoints o.call_every_cookie (setpoint o.system_id o.autopilot_id v) ticks
  tick_all_lem [] v o streaming m is = sym (append-nil o.outbox)
  tick_all_lem ((e, k) ∷ ticks) v o streaming m is =
      let sent =
        if e.connected && (k == o.call_every_cookie)
        then setpoint o.system_id o.autopilot_id v e ∷ []
        else [] in
      let rest = setpoints o.call_every_cookie (setpoint o.system_id o.autopilot_id v) ticks in
      ap (λ (x : Offboard). (tick_all ticks x).outbox) (tick_sends e k v o streaming m is)
      ∙ tick_all_lem ticks v (record o { outbox = o.outbox ++ sent }) streaming m is
      ∙ append_assoc o.outbox sent rest

  -- From any state that streams rightly, setting a velocity in the local frame sends it at once,
  -- and after that, however often whichever entries are due, once for each time that the plugin's
  -- own entry is, whatever was streamed before; nothing is sent while there is no connection.
  pub set_velocity_ned_streams :
      (e : Moment) (v : Velocity) (ticks : List (Moment × ℕ)) (o : Offboard)
      → IsFresh e o
      → IsStreaming o
      → (tick_all ticks (set_velocity_ned to_rad_from_deg e v o)).outbox
        ≡ o.outbox
          ++ (if e.connected then setpoint o.system_id o.autopilot_id v e ∷ [] else [])
          ++ setpoints
              (set_velocity_ned to_rad_from_deg e v o).call_every_cookie
              (setpoint o.system_id o.autopilot_id v)
              ticks
  set_velocity_ned_streams e v ticks o fresh streaming =
      let o' = set_velocity_ned to_rad_from_deg e v o in
      let (mode, is, sent, system, pilot) = set_velocity_ned_lem e v o in
      tick_all_lem ticks v o' (set_velocity_ned-IsStreaming to_rad_from_deg e v o fresh streaming)
        mode is
      ∙ rw (sent, system, pilot) refl
