-- ===== src/Rtmp/Status.antt =====
-- protocol/rtmp/const.go: the states of a connection, `rtmp_state_…`. `rtmp_state_stop` repeats the
-- expression of the line before it, and is the same number as `rtmp_state_send_fail`.
use golive.Common.{ℕ}

abbrev pub init : ℕ
init = 1

abbrev pub hand_success : ℕ
hand_success = 3

abbrev pub connect_success : ℕ
connect_success = 11

abbrev pub connect_fail : ℕ
connect_fail = 1019

abbrev pub crtstrm_success : ℕ
crtstrm_success = 21

abbrev pub crtstrm_fail : ℕ
crtstrm_fail = 1029

abbrev pub publish_success : ℕ
publish_success = 31

abbrev pub publish_fail : ℕ
publish_fail = 1039

abbrev pub play_start : ℕ
play_start = 44

abbrev pub play_fail : ℕ
play_fail = 1049

abbrev pub stop : ℕ
stop = 2000

abbrev pub connect_send : ℕ
connect_send = 10

abbrev pub crtstm_send : ℕ
crtstm_send = 20

abbrev pub publish_send : ℕ
publish_send = 30

abbrev pub play_send : ℕ
play_send = 40

abbrev pub stream_is_record : ℕ
stream_is_record = 41

abbrev pub stream_begin : ℕ
stream_begin = 42

abbrev pub play_reset : ℕ
play_reset = 43

abbrev pub send_fail : ℕ
send_fail = 2000
