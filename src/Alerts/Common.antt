-- ===== src/Alerts/Common.antt =====
-- SenSa/alerts/services/_common.py with the values of SenSa/mysite/settings.py; times in
-- microseconds.
use sen_sa.Prelude.{ℕ}

abbrev pub re_alarm_interval : ℕ
re_alarm_interval = 60000000

-- the settings file has 3 where the module's own default is 5
abbrev pub recovery_confirm_ticks : ℕ
recovery_confirm_ticks = 3

abbrev pub caution_window : ℕ
caution_window = 10000000

abbrev pub caution_count_threshold : ℕ
caution_count_threshold = 5

abbrev pub danger_count_threshold : ℕ
danger_count_threshold = 5

abbrev pub recovery_window : ℕ
recovery_window = 10000000

abbrev pub recovery_count_threshold : ℕ
recovery_count_threshold = 7
