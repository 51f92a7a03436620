-- ===== src/Urdp/Init.antt =====
-- The construction of a flow: `__init`, `create_for_active_connect`, `create_for_passive_connect`.
-- What the outside decides is an argument: the time, the layer's token, the random numbers. Fields
-- that `__init` leaves alone come from the flow that it is given.
use p2engine.Prelude.{Option, [], false, none, some, true, ℕ, ◌*◌, ◌+◌, ◌/◌}
use p2engine.Urdp.Flow.{Flow, add32, moderate, next_op_stamp, time32}
use p2engine.Urdp.Types.{
  TcpState, default_timeout, idle_timeout, invalid_flowid, listen, min_rto, mtu_size, recv_buf_size,
  sd_none,
}

-- `__init`: `seq` is the random initial sequence number, `session` the session id drawn for it.
unfoldable pub init_flow : ℕ → ℕ → ℕ → Flow → Flow
unfolding next_op_stamp
init_flow now seq session f = record f {
  conn = record (next_op_stamp f.conn) {
    state = TcpState.init;
    shutdown = sd_none;
    session_id = session;
    remote_peer_id = invalid_flowid;
    socket = false;
    disconn_local = false;
    disconn_remote = false;
    ignore_all_pkt = false;
    keep_recving = false;
    timer_posted = false;
    close_called = false;
  };
  snd = record {
    slist = f.slist;
    retrans_slist = f.retrans_slist;
    snd_nxt = seq;
    snd_wnd = recv_buf_size / 2;
    slen = 0;
    snd_una = seq;
    mss = mtu_size;
    ssthresh = recv_buf_size;
    cwnd = 2 * mtu_size;
    recover = 0;
    dup_acks = 0;
    detect_writable = false;
  };
  rcv = record (f.rcv) {
    rcv_wnd = recv_buf_size;
    rlen = 0;
    lastack = f.rcv_nxt;
    detect_readable = true;
  };
  tim = record (f.tim) {
    rttvar = 0;
    srtt = 0;
    rto = min_rto;
    t_rto_base = 0;
    t_ack = 0;
    t_recent = 0;
    t_lastrecv = time32 now;
    t_lastsend = time32 now;
    t_lasttraffic = time32 now;
    t_last_on_clock = time32 now;
    t_close_base = some (add32 (time32 now) idle_timeout);
    ping_interval = default_timeout;
    timer_idle = true;
  };
}

-- A flow before its constructor's body runs: containers are empty and flags off. The fields that
-- the constructor does not set are arguments only through the generator.
unfoldable pub blank : (ℕ → ℕ → ℕ → ℕ) → Flow
blank random = record {
  conn = record {
    state = TcpState.init;
    shutdown = sd_none;
    session_id = 0;
    remote_peer_id = invalid_flowid;
    remote_endpoint = 0;
    token = none;
    layer_open = false;
    socket = false;
    acceptor = false;
    self_holder = false;
    active = false;
    disconn_local = false;
    disconn_remote = false;
    ignore_all_pkt = false;
    keep_recving = false;
    timer_posted = false;
    close_called = false;
    op_stamp = 0;
    op_cancel = 0;
  };
  snd = record {
    slist = [];
    retrans_slist = [];
    snd_nxt = 0;
    snd_wnd = 0;
    slen = 0;
    snd_una = 0;
    mss = mtu_size;
    ssthresh = 0;
    cwnd = 0;
    recover = 0;
    dup_acks = 0;
    detect_writable = false;
  };
  rcv = record {
    rlist = [];
    rcv_nxt = 0;
    rcv_wnd = 0;
    rlen = 0;
    lastack = 0;
    detect_readable = false;
  };
  tim = record {
    rttvar = 0;
    srtt = 0;
    rto = min_rto;
    t_rto_base = 0;
    t_ack = 0;
    t_recent = 0;
    t_recent_now = 0;
    t_lastrecv = 0;
    t_lastsend = 0;
    t_lasttraffic = 0;
    t_last_on_clock = 0;
    t_close_base = none;
    establish_time = 0;
    ping_interval = 0;
    timer_idle = true;
    timer_expires = 0;
  };
  unr = record {
    unreliable_rlist = [];
    unreliable_slist = [];
    rkeeper = [];
    unreliable_pktid = 0;
    id_seed = 0;
    id_for_lost_rate = 0;
    lostrate = 0;
    loss_level = moderate;
  };
  random = random;
  draws = 0;
  fault = false;
  out = [];
}

-- `m_timer->async_wait(t)` at `now`.
unfoldable pub async_wait : ℕ → ℕ → Flow → Flow
async_wait t now f = record f {
  tim = record (f.tim) { timer_idle = false; timer_expires = now + t };
}

-- `token` is the flow id that the layer gives, or `none` where no token could be made.
unfoldable pub create_for_active_connect : ℕ → ℕ → ℕ → Option ℕ → Flow → Flow
unfolding init_flow
create_for_active_connect now seq session token f =
    let g = init_flow now seq session f in
    record g {
      conn = record (g.conn) {
        active = true;
        socket = true;
        state = TcpState.init;
        self_holder = true;
        token = token;
        layer_open = true;
      };
    }

unfoldable pub create_for_passive_connect : ℕ → ℕ → ℕ → Option ℕ → ℕ → Flow → Flow
unfolding init_flow async_wait
create_for_passive_connect now seq session token remote f =
    let g = init_flow now seq session f in
    async_wait idle_timeout now (record g {
      conn = record (g.conn) {
        acceptor = true;
        remote_endpoint = remote;
        active = false;
        state = listen;
        self_holder = true;
        token = token;
        layer_open = true;
      };
    })
