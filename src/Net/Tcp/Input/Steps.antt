-- ===== src/Net/Tcp/Input/Steps.antt =====
-- The bounds of every block, call by call.
use vyro_os.Base.Slots.{first, first-Found}
use vyro_os.Base.Every.{Every, Every-get, Every-set}
use vyro_os.Base.{
  ℕ, ◌+◌, ◌-◌, ◌%◌, ◌^◌, min, ◌≤◌, ◌<◌, ◌≡◌, inl, inr, refl, sym, ap, ◌∙◌, Bool, true, false, not,
  ◌||◌, ◌++◌, Option, none, some, List, [], length, take, drop, get_elem?, length-append,
  length-take, length-drop, arith, Option-cases, if-holds, if◌then◌else◌, ltb, ◌==◌,
}
use vyro_os.Net.Tcp.Tcb.{
  Tcb, TcpState, fin_wait_1, last_ack, established, close_wait, tcp_buf_size, is_established,
  in_flight,
}
use vyro_os.Net.Tcp.Tcb.Window.{try_emit_same}
use vyro_os.Net.Tcp.Handle.{shut}
use vyro_os.Net.Tcp.Handle.Edges.{is_open}
use vyro_os.Net.Tcp.Handle.Bounds.{IsValid, IsValid-idle, try_emit-IsValid}
use vyro_os.Net.Tcp.Table.{
  Tcp, Packet, put, alloc_tcb, fresh_tcb, listen_tcb, is_taken, tcp_listen, is_waiting, tcp_accept,
  send_tcb, tcp_send, tcp_recv,
}
use vyro_os.Net.Tcp.Input.{connect_tcb, tcp_connect, fin_tcb, close_tcb, tcp_close}

-- A block within its bounds, marked active exactly while its state is not closed.
pub record IsBlock (t : Tcb) : Type 0 where
  pub valid : IsValid t
  pub marked : t.active ≡ is_open t.state

abbrev pub Blocks : Tcp → Type 0
Blocks s = Every IsBlock s.tcbs

pub IsBlock-fresh :
    (t : Tcb)
    → (t.snd_buf ≡ []) × (t.rcv_buf ≡ []) × (t.ooo_buf ≡ [])
    → is_established t.state ≡ false
    → t.active ≡ is_open t.state
    → t.snd_nxt < 2 ^ 32
    → t.snd_una < 2 ^ 32
    → t.rcv_nxt < 2 ^ 32
    → IsBlock t
IsBlock-fresh t (s, r, o) idle marked nxt una rcv = record {
  valid = record {
    room = omega (arith, ap length s);
    next = nxt;
    oldest = una;
    flight = inl idle;
    rcv_room = omega (arith, ap length r);
    ooo_room = omega (arith, ap length o);
    rcv_next = rcv;
  };
  marked = marked;
}

pub Blocks-put : (s : Tcp) (i : ℕ) (t : Tcb) → Blocks s → IsBlock t → Blocks (put s i t)
Blocks-put s i t v b = Every-set IsBlock s.tcbs i t v b

found-IsBlock :
    (p : Tcb → Bool) (s : Tcp) (i : ℕ) (t : Tcb)
    → Blocks s
    → first p s.tcbs ≡ some (i, t)
    → IsBlock t
found-IsBlock p s i t v e = Every-get IsBlock s.tcbs i v (first-Found p s.tcbs i t e).0

pub tcp_listen-Blocks :
    (ip : List ℕ) (port : ℕ) (s : Tcp) → Blocks s → Blocks (tcp_listen ip port s).0
unfolding tcp_listen listen_tcb fresh_tcb is_established is_open
tcp_listen-Blocks ip port s v =
    if-holds (λ (r : Tcp × Option ℕ). Blocks r.0) (port == 0) {x = (s, none)} (λ _. v)
      (λ _. elim (Option-cases (first (is_taken port) s.tcbs)) [
        | inr (x, e) ↦ rw e v
        | inl e ↦ rw e (elim (Option-cases (alloc_tcb s.tcbs)) [
          | inl f ↦ rw f v
          | inr ((i, t), f) ↦ rw f (
              Blocks-put s i (listen_tcb ip port t) v (
                IsBlock-fresh (listen_tcb ip port t) (refl, refl, refl) refl refl (omega arith)
                  (omega arith) (omega arith)))
        ])
      ])

pub shut-IsBlock : (t : Tcb) → IsValid t → IsBlock (shut t)
unfolding is_established is_open
shut-IsBlock t v = record {
  valid = IsValid-idle t (shut t) v (inl refl) (refl, refl, refl, refl) v.oldest v.rcv_next;
  marked = refl;
}

pub tcp_accept-Blocks : (port : ℕ) (s : Tcp) → Blocks s → Blocks (tcp_accept port s).0
unfolding tcp_accept
tcp_accept-Blocks port s v = elim (Option-cases (first (is_waiting port) s.tcbs)) [
  | inl e ↦ rw (e, tcp_accept) v
  | inr ((i, t), e) ↦
      rw (e, tcp_accept)
        (let b = found-IsBlock (is_waiting port) s i t v e in
          Blocks-put s i (record t { accepted = true }) v
            record {
              valid =
                  IsValid-idle t _ b.valid b.valid.flight (refl, refl, refl, refl) b.valid.oldest
                    b.valid.rcv_next;
              marked = b.marked;
            })
]

send_tcb-IsBlock :
    (now : ℕ) (t : Tcb) (bytes : List ℕ)
    → IsBlock t
    → is_established t.state ≡ true
    → length t.snd_buf + length bytes ≤ tcp_buf_size
    → IsBlock (send_tcb now t bytes).0
unfolding send_tcb
send_tcb-IsBlock now t bytes b e fits =
    let u = record t {
      snd_buf = t.snd_buf ++ bytes;
      snd_oldest_ms = (if t.snd_oldest_ms == 0 then now else t.snd_oldest_ms);
    } in
    let v = b.valid in
    let size = length-append t.snd_buf bytes in
    let same = try_emit_same now u in
    let window : in_flight u ≤ length u.snd_buf = elim v.flight [
      | inl no' ↦ absurd (ground arith)
      | inr le ↦ omega (arith, size)
    ] in
    record {
      valid =
          try_emit-IsValid now u
            record {
              room = omega (arith, size);
              next = v.next;
              oldest = v.oldest;
              flight = inr window;
              rcv_room = v.rcv_room;
              ooo_room = v.ooo_room;
              rcv_next = v.rcv_next;
            }
            e;
      marked = same.7 ∙ b.marked ∙ ap is_open (sym same.0);
    }

pub tcp_send-Blocks :
    (now id : ℕ) (bytes : List ℕ) (s : Tcp) → Blocks s → Blocks (tcp_send now id bytes s).0
unfolding tcp_send
tcp_send-Blocks now id bytes s v = elim (Option-cases (get_elem? s.tcbs id)) [
  | inl e ↦ rw (e, tcp_send) v
  | inr (t, e) ↦
      rw (e, tcp_send)
        (let len = min (length bytes) (tcp_buf_size - length t.snd_buf) in
          let b = Every-get IsBlock s.tcbs id v e in
          if-holds (λ (r : Tcp × Option ℕ × List Packet). Blocks r.0)
            (not t.active || not (is_established t.state)) {x = (s, none, [])} (λ _. v)
            (λ h.
              if-holds (λ (r : Tcp × Option ℕ × List Packet). Blocks r.0) (len == 0)
                {x = (s, some 0, [])} (λ _. v)
                (λ _. Blocks-put s id (send_tcb now t (take len bytes)).0 v (
                  send_tcb-IsBlock now t (take len bytes) b (ground arith)
                    (let room = b.valid.room in omega (arith, length-take len bytes))))))
]

pub tcp_recv-Blocks : (id max : ℕ) (s : Tcp) → Blocks s → Blocks (tcp_recv id max s).0
unfolding tcp_recv
tcp_recv-Blocks id max s v = elim (Option-cases (get_elem? s.tcbs id)) [
  | inl e ↦ rw (e, tcp_recv) v
  | inr (t, e) ↦
      rw (e, tcp_recv)
        (let n = min (length t.rcv_buf) max in
          let b = Every-get IsBlock s.tcbs id v e in
          if-holds (λ (r : Tcp × Option (List ℕ)). Blocks r.0) (not t.active) {x = (s, none)}
            (λ _. v)
            (λ _.
              if-holds (λ (r : Tcp × Option (List ℕ)). Blocks r.0) (n == 0) {x = (s, some [])}
                (λ _. v)
                (λ _.
                  Blocks-put s id (record t { rcv_buf = drop n t.rcv_buf }) v
                    record {
                      valid =
                          (let w = b.valid in
                            record {
                              room = w.room;
                              next = w.next;
                              oldest = w.oldest;
                              flight = w.flight;
                              rcv_room = omega (arith, length-drop n t.rcv_buf, w.rcv_room);
                              ooo_room = w.ooo_room;
                              rcv_next = w.rcv_next;
                            });
                      marked = b.marked;
                    })))
]

pub tcp_connect-Blocks :
    (sent : Bool) (now : ℕ) (ip dst_ip : List ℕ) (dst_port : ℕ) (s : Tcp)
    → Blocks s
    → Blocks (tcp_connect sent now ip dst_ip dst_port s).0
unfolding tcp_connect connect_tcb fresh_tcb is_established is_open
tcp_connect-Blocks sent now ip dst_ip dst_port s v = elim (Option-cases (alloc_tcb s.tcbs)) [
  | inl e ↦ rw (e, tcp_connect) v
  | inr ((i, old), e) ↦
      rw (e, tcp_connect)
        (let port = ((if ltb 60000 s.next_eph_port then 32768 else s.next_eph_port) + 1) % 2 ^ 16 in
          let t = connect_tcb now ip dst_ip port dst_port old in
          let b =
            IsBlock-fresh t (refl, refl, refl) refl refl (omega arith) (omega arith)
              (omega arith) in
          let s' = record s { next_eph_port = port } in
          if-holds (λ (r : Tcp × Option ℕ × List Packet). Blocks r.0) sent
            (λ _. Blocks-put s' i t v b) (λ _. Blocks-put s' i (shut t) v (shut-IsBlock t b.valid)))
]

fin_tcb-IsBlock :
    (next : TcpState) (t : Tcb)
    → IsBlock t
    → t.active ≡ true
    → is_open next ≡ true
    → is_established next ≡ false
    → IsBlock (fin_tcb next t)
unfolding fin_tcb
fin_tcb-IsBlock next t b a o idle =
    let v = b.valid in
    record {
      valid = record {
        room = v.room;
        next = omega arith;
        oldest = v.oldest;
        flight = inl idle;
        rcv_room = v.rcv_room;
        ooo_room = v.ooo_room;
        rcv_next = v.rcv_next;
      };
      marked = a ∙ sym o;
    }

close_tcb-IsBlock :
    (st : TcpState) (t : Tcb) → IsBlock t → t.active ≡ true → IsBlock (close_tcb st t).0
unfolding close_tcb is_established is_open
close_tcb-IsBlock established t b a = fin_tcb-IsBlock fin_wait_1 t b a refl refl
close_tcb-IsBlock close_wait t b a = fin_tcb-IsBlock last_ack t b a refl refl
close_tcb-IsBlock _ t b a = shut-IsBlock t b.valid

pub tcp_close-Blocks : (id : ℕ) (s : Tcp) → Blocks s → Blocks (tcp_close id s).0
unfolding tcp_close
tcp_close-Blocks id s v = elim (Option-cases (get_elem? s.tcbs id)) [
  | inl e ↦ rw (e, tcp_close) v
  | inr (t, e) ↦
      rw (e, tcp_close)
        (if-holds (λ (r : Tcp × Bool × List Packet). Blocks r.0) (not t.active) {x = (s, false, [])}
          (λ _. v)
          (λ h.
            Blocks-put s id (close_tcb t.state t).0 v
              (close_tcb-IsBlock t.state t (Every-get IsBlock s.tcbs id v e) (ground arith))))
]
