-- ===== src/Gateway/Excel/Library.antt =====
-- The functions of the library excelize that the generator of Excel files calls.
use diasoft.Prelude.{ℕ, String, Bool, Result, ℤ}
use diasoft.Gateway.Model.{Error}
use diasoft.Gateway.Sealing.{Bytes}

-- What a cell is set to.
pub data Value : Type 0 where
  number : ℤ → Value
  text : String → Value

-- excelize.Style; a size of 0 and a text "" where the code sets none
pub record Style : Type 0 where
  pub bold : Bool
  pub size : ℕ
  pub horizontal : String
  pub vertical : String
  pub wrap_text : Bool

pub record Panes : Type 0 where
  pub freeze : Bool
  pub split : Bool
  pub y_split : ℕ
  pub top_left_cell : String
  pub active_pane : String

-- excelize.Picture with its options; the scales in hundredths
pub record Picture : Type 0 where
  pub extension : String
  pub file : Bytes
  pub offset_x : ℕ
  pub offset_y : ℕ
  pub scale_x : ℕ
  pub scale_y : ℕ
  pub lock_aspect_ratio : Bool
  pub positioning : String

-- The functions of excelize. `cell_name` is CoordinatesToCellName, "" where that fails.
pub record Excelize (File : Type 0) : Type 0 where
  pub new_file : File
  pub set_sheet_name : String → String → File → File
  pub new_style : Style → File → Result Error (ℕ × File)
  pub cell_name : ℕ → ℕ → String
  pub set_cell_value : String → String → Value → File → Result Error File
  pub set_cell_style : String → String → String → ℕ → File → Result Error File
  pub set_panes : String → Panes → File → Result Error File
  pub set_row_height : String → ℕ → ℕ → File → Result Error File
  pub set_col_width : String → String → String → ℕ → File → Result Error File
  pub add_picture : String → String → Picture → File → Result Error File
  pub write_to_buffer : File → Result Error Bytes
