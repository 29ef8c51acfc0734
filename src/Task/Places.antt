-- ===== src/Task/Places.antt =====
-- The places of the threads of a task: which need the request, which sleep, which notify.
use tpool.Base.{Bool, arith, false, refl, true, ◌≡◌}
use tpool.Task.{
  Pc, asked, before_notify, checked, crashed, did_run, idle, in_do_run, notify, ran, saw_stop,
  thrown, waits, woken,
}

-- A thread in these places has seen or made the request.
abbrev pub needs_request : Pc → Bool
needs_request asked = true
needs_request waits = true
needs_request woken = true
needs_request thrown = true
needs_request p = false

abbrev pub is_asleep : Pc → Bool
is_asleep waits = true
is_asleep p = false

-- About to notify.
abbrev pub rings : Pc → Bool
rings before_notify = true
rings p = false

pub notify-needs : (p : Pc) → needs_request (notify p) ≡ needs_request p
notify-needs idle = refl
notify-needs checked = refl
notify-needs in_do_run = refl
notify-needs did_run = refl
notify-needs thrown = refl
notify-needs before_notify = refl
notify-needs ran = refl
notify-needs crashed = refl
notify-needs asked = refl
notify-needs waits = refl
notify-needs woken = refl
notify-needs saw_stop = refl

pub notify-rings : (p : Pc) → rings (notify p) ≡ rings p
notify-rings idle = refl
notify-rings checked = refl
notify-rings in_do_run = refl
notify-rings did_run = refl
notify-rings thrown = refl
notify-rings before_notify = refl
notify-rings ran = refl
notify-rings crashed = refl
notify-rings asked = refl
notify-rings waits = refl
notify-rings woken = refl
notify-rings saw_stop = refl

pub notify-awake : (p : Pc) → is_asleep (notify p) ≡ false
notify-awake idle = refl
notify-awake checked = refl
notify-awake in_do_run = refl
notify-awake did_run = refl
notify-awake thrown = refl
notify-awake before_notify = refl
notify-awake ran = refl
notify-awake crashed = refl
notify-awake asked = refl
notify-awake waits = refl
notify-awake woken = refl
notify-awake saw_stop = refl

pub asleep_needs : (p : Pc) → is_asleep p ≡ true → needs_request p ≡ true
asleep_needs idle e = ground arith
asleep_needs checked e = ground arith
asleep_needs in_do_run e = ground arith
asleep_needs did_run e = ground arith
asleep_needs thrown e = ground arith
asleep_needs before_notify e = ground arith
asleep_needs ran e = ground arith
asleep_needs crashed e = ground arith
asleep_needs asked e = ground arith
asleep_needs waits e = refl
asleep_needs woken e = ground arith
asleep_needs saw_stop e = ground arith
