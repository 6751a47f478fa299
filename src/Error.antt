-- ===== src/Error.antt =====
-- `Error::errorcode_t` and `Error::ErrorInfo` of driver/include/error.h.
use dcn1003_group.Base.{Bool, true, false, [], ◌∷◌, Bytes}

pub data ErrorCode : Type 0 where
  success socket_err bind_err listen_err accept_err send_err recv_err read_err mac_calc_err
        mac_check_err iv_calc_err encrypt_err decrypt_err proto_coding_err proto_parse_err
        dispatch_err cmd_err unknown_err :
      ErrorCode

pub record ErrorInfo : Type 0 where
  pub e : ErrorCode
  pub message : Bytes

-- `std::string message = {0}` is the string of one zero byte.
abbrev pub no_error : ErrorInfo
no_error = record { e = ErrorCode.success; message = 0 ∷ [] }

-- `err.e == Error::SUCCESS`
abbrev pub is_success : ErrorInfo → Bool
is_success err = elim err.e [ ErrorCode.success ↦ true | _ ↦ false ]
