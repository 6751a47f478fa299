-- ===== src/Log.antt =====
-- driver/include/log.h and driver/src/log.cpp: the lines that are printed to the standard output. The time
-- is a text of the clock, and what `snprintf` gives for a format and its arguments is a text too.
use dcn1003_group.Base.{[], ◌∷◌, ◌++◌, Bytes, codes, take}
use dcn1003_group.Error.{ErrorInfo}
use dcn1003_group.Sqlite.{c_str}

pub data Level : Type 0 where
  debug info warn error : Level

abbrev level_text : Level → Bytes
level_text Level.debug = codes "[DEBUG] "
level_text Level.info = codes "[INFO] "
level_text Level.warn = codes "[WARN] "
level_text Level.error = codes "[ERROR] "

-- `print_log(log, level)`, with `std::endl`.
unfoldable pub print_log : Bytes → Bytes → Level → Bytes
print_log time log level = time ++ level_text level ++ log ++ 10 ∷ []

-- `print_log(err, level)`
unfoldable pub print_log_error : Bytes → ErrorInfo → Level → Bytes
unfolding print_log
print_log_error time err level = print_log time err.message level

-- `print_log(level, fmt, …)`: the buffer holds all but one of its bytes of the formatted text, and is
-- printed up to its first zero byte.
unfoldable pub print_log_format : Bytes → Level → Bytes → Bytes
unfolding print_log
print_log_format time level formatted = print_log time (c_str (take 1023 formatted)) level
